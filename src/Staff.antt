-- ===== src/Staff.antt =====
-- Accounts of the staff (internal/staff): the tables, their statements, and the service on them.
pub mod Limiter
pub mod Rows
pub mod Accounts
pub mod Spelling
pub mod Sessions
pub mod Service
pub mod Bootstrap
pub mod Owners
pub mod Events
pub mod Owned
pub mod Ended
pub mod Entry
mod Tests
