-- ===== src/Storage.antt =====
-- backend/internal/storage: local object storage.
pub mod Path
pub mod Files
pub mod Traversal
pub mod Publish
