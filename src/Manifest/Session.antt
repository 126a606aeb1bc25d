-- ===== src/Manifest/Session.antt =====
-- fusio-manifest/src/session.rs: the reads that ReadSession and WriteSession share.
pub mod Reads
pub mod Rest
pub mod Fold
pub mod Lookup
pub mod History
pub mod Collect
pub mod Agree
pub mod Writes
pub mod Commit
pub mod Success
