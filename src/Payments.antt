-- ===== src/Payments.antt =====
-- internal/payments: what a provider is (Payments/Provider), the callback of the bank
-- (Payments/Callback), opening and compensating checkout sessions (Payments/Session), and the
-- expiry of abandoned orders (Payments/Expiry). Theorems stand in Money (what a paid callback leaves),
-- Abandoned (what expires) and Repeats (callbacks that come again).
pub mod Provider
pub mod Callback
pub mod Session
pub mod Expiry
pub mod Repeats
pub mod Money
pub mod Abandoned
mod Tests
