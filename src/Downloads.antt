-- ===== src/Downloads.antt =====
-- Files as they are streamed to their owners.
pub mod Range
pub mod Bounds
pub mod Stream
pub mod Inline
pub mod Gate
