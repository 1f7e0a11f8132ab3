-- ===== src/Release.antt =====
-- The scripts of the repository that pack: scripts/release.py and scripts/archive_evidence.py.
pub mod Sums
pub mod Build
pub mod Packed
pub mod Verifies
mod Tests
