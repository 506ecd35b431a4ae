-- ===== src/Schema.antt =====
-- The tables that the order and payment code reads and writes (migrations/*.sql): the rows
-- (Schema/Rows), text (Schema/Text, Schema/Trim) and the statements that the code runs on them (Schema/Statements).
pub mod Text
pub mod Trim
pub mod Rows
pub mod Statements
