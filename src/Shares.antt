-- ===== src/Shares.antt =====
-- Share links: backend/internal/http/shares.go.
pub mod Access
pub mod Create
pub mod Public
pub mod Guarded
pub mod Limit
pub mod Roundtrip
pub mod Manage
pub mod Browse
pub mod Managed
pub mod Browsed
pub mod Preview
