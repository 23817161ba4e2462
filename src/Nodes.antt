-- ===== src/Nodes.antt =====
-- Renaming, moving and deleting of files.
pub mod Handlers
pub mod Deletion
