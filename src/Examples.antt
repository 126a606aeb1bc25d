-- ===== src/Examples.antt =====
-- Concrete inputs for the theorems: a small world that implements the stores, and the tests.
pub mod World
pub mod Runs
pub mod Heads
pub mod Texts
pub mod Stores
pub mod Leases
pub mod Checkpoints
pub mod Uploads
pub mod Caches
pub mod Filed
pub mod Files
