-- ===== src/Worker/Ending.antt =====
-- An attempt ends, and is cleaned up, once its command has exited and its output is free.
pub mod Steps
pub mod Closing
pub mod Total
