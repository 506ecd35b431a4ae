-- ===== src/Auth.antt =====
-- Authentication of customers (internal/auth): codes by SMS, and refresh tokens.
pub mod Limiter
pub mod Rows
pub mod Codes
pub mod Tokens
pub mod Phone
pub mod Review
pub mod Service
pub mod Session
pub mod Steps
pub mod Reuse
pub mod Entry
mod Tests
