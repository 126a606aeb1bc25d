-- ===== src/Manifest/Compactor.antt =====
-- fusio-manifest/src/compactor.rs.
pub mod Retention
pub mod Compact
pub mod Gc
pub mod Kept
pub mod Pointed
pub mod Head
