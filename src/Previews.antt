-- ===== src/Previews.antt =====
-- Which files can be previewed, how, and under which settings.
pub mod Runtime
pub mod Mode
pub mod Csv
pub mod Jobs
pub mod Queue
pub mod Content
pub mod Limited
