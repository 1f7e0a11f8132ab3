-- ===== src/Worker.antt =====
-- `Worker` of worker/python/rungrid_worker/main.py: one leased attempt (`execute`) with its renewing
-- thread, its log reader and its command.
pub mod Start
pub mod State
pub mod Threads
pub mod Monad
pub mod Execute
pub mod Protocol
pub mod Run
pub mod Environment
pub mod Lost
pub mod Ending
pub mod Progress
mod Tests
