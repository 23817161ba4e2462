-- ===== src/Folders.antt =====
-- Creating, renaming, moving, deleting and listing folders.
pub mod Handlers
pub mod Delete
pub mod Listing
pub mod Sort
pub mod Acyclic
pub mod Requests
pub mod Deletion
pub mod Stable
pub mod Sorted
