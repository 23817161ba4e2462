-- ===== src/Uploads.antt =====
-- Resumable uploads: backend/internal/http/uploads.go (the custom protocol).
pub mod Session
pub mod Chunk
pub mod Progress
pub mod Resume
pub mod Interrupted
pub mod Init
pub mod Complete
pub mod Cancel
pub mod Undo
pub mod Completion
pub mod Admission
pub mod Expiry
pub mod Direct
pub mod DirectEffect
pub mod DirectHang
