-- ===== src/Tus.antt =====
-- The tus protocol over the same upload sessions: backend/internal/http/tus.go.
pub mod Reply
pub mod Create
pub mod Admission
pub mod Patch
pub mod Finalize
pub mod Progress
