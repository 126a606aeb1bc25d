-- ===== src/Manifest.antt =====
-- The manifest crate (fusio-manifest): a key-value store over a HEAD object, segments,
-- checkpoints and leases.
pub mod Types
pub mod Backoff
pub mod Table
pub mod Stores
pub mod Heads
pub mod Session
pub mod Open
pub mod Recover
pub mod Plan
pub mod Compactor
pub mod HeadStore
pub mod InMemory
pub mod Files
pub mod Segments
pub mod Checkpoints
pub mod Leases
pub mod Cache
pub mod PlanStore
