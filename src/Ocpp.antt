-- ===== src/Ocpp.antt =====
-- The frames of OCPP 1.6 (apps/backend/src/ocpp/ocpp16-frame.ts).
mod Frame
pub mod Exchange
mod Tests
unfoldable pub use Frame.*
