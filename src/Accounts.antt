-- ===== src/Accounts.antt =====
-- Logging in, sessions, passwords and the administration of users.
pub mod Sessions
pub mod Admin
pub mod Csrf
pub mod Closed
pub mod Login
pub mod Deactivated
pub mod Origins
pub mod Cleanup
pub mod Usage
