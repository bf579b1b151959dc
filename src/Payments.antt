-- ===== src/Payments.antt =====
-- The payment of a charging session (apps/backend/src/payments/charging).
pub mod Policy
pub mod Charging
pub mod Settling
pub mod Calls
pub mod Limits
pub mod Captures
pub mod Cancellation
mod Tests
