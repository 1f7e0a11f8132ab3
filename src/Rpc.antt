-- ===== src/Rpc.antt =====
-- `RPC` of worker/python/rungrid_worker/rpc.py: one request, repeated with backoff until it is
-- answered, refused, or out of time. All times are in milliseconds. A time before 0 is 0, which no
-- comparison with a clock can tell, since the monotonic clock is never negative.
pub mod Loop
pub mod Rule
pub mod Bounds
pub mod Deadline
mod Tests
pub use Loop.*
