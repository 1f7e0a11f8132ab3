-- ===== src/Study.antt =====
-- The research study of examples/heterosplit, run as jobs: its protocols, its jobs and its sampling.
pub mod Protocols
pub mod Plans
pub mod Submit
pub mod Keys
pub mod Jobs
pub mod Pairs
pub mod Present
pub mod Batch
pub mod Sampling
pub mod Negatives
pub mod Nodes
pub mod Graph
pub mod Records
pub mod Loading
pub mod Task
pub mod Preflight
pub mod Rehearsal
pub mod Research
pub mod Run
pub mod Repeats
pub mod Agrees
pub mod Smoke
pub mod Resumed
pub mod Aggregate
pub mod Groups
pub mod Grouped
pub mod Tabled
pub mod Polling
pub mod Published
pub mod Sums
pub mod Counts
pub mod Metrics
pub mod Ranks
pub mod Auc
pub mod Labels
pub mod Quotients
pub mod Precision
pub mod Tests
pub mod RunTests
pub mod AggregateTests
pub mod UploadTests
pub mod ResumedTests
pub mod MetricsTests
