-- ===== src/Intents.antt =====
-- Payment intents (apps/backend/src/payments/intents): the state machine of a payment and the
-- service that moves a row along it under an optimistic lock.
mod Machine
pub mod Paths
pub mod Service
pub mod Locking
pub mod Arrival
mod Tests
unfoldable pub use Machine.*
