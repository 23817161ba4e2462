-- ===== src/Worker.antt =====
-- The preview worker of backend/internal/preview/runner.go.
pub mod Double
pub mod Image
pub mod Tools
pub mod Claim
pub mod Publish
pub mod Generate
pub mod Office
pub mod Process
pub mod Moves
pub mod Rows
pub mod Attempts
pub mod Drain
pub mod Published
pub mod Resize
