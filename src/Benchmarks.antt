-- ===== src/Benchmarks.antt =====
-- The experiments of benchmarks/: the wait of recovery.py and the batches of run.py.
pub mod Wait
pub mod Batches
pub mod Await
pub mod Ids
pub mod Rows
pub mod Case
pub mod Outcome
pub mod Lives
pub mod Grid
pub mod Sorted
pub mod Percentile
pub mod Recovery
pub mod Measures
pub mod Tests
pub mod CaseTests
