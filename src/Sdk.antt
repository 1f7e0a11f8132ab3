-- ===== src/Sdk.antt =====
-- The Python SDK: sdk/python/rungrid.
pub mod Checkpoint
pub mod Client
pub mod Paths
mod Counter
mod Invoke
mod Tests
