-- ===== src/S3.antt =====
-- fusio/src/impls/remotes/aws: files on S3.
pub mod Writer
pub mod File
