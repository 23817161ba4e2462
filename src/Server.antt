-- ===== src/Server.antt =====
-- What every handler of backend/internal/http works on: the database, the storage, the audit log and
-- the counter of uploaded bytes.
pub mod World
pub mod Names
pub mod Numbers
