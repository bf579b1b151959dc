-- ===== src/Charging.antt =====
-- Charging sessions (apps/backend/src/charging/domain): the state machine of a session.
mod Machine
pub mod Paths
mod Tests
unfoldable pub use Machine.*
