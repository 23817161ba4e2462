-- ===== src/Zip.antt =====
-- The ZIP downloads of backend/internal/http/zip.go, and of shares.go.
pub mod Entries
pub mod Stream
pub mod Handlers
pub mod Levels
pub mod Ends
pub mod Collected
pub mod Confined
pub mod Public
