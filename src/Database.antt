-- ===== src/Database.antt =====
-- The tables of backend/migrations/*.sql that the modelled code reads and writes. A uuid is a number,
-- a timestamp is a number of seconds, a bigint that the code keeps at or above zero is a number.
pub mod Rows
pub mod Tree
