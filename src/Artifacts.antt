-- ===== src/Artifacts.antt =====
-- `Artifacts` of worker/python/rungrid_worker/artifacts.py: content digests, object keys, uploads
-- that are tried again, and restores that are checked. The object storage client, the clock and the
-- lease are the parameter `Site`, and SHA-256 is the parameter `Hash`.
pub mod Digest
pub mod Key
pub mod Upload
pub mod Effects
pub mod Restore
pub mod Tests
