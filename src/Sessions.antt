-- ===== src/Sessions.antt =====
-- The charging service (apps/backend/src/charging): a session from its creation to its end.
pub mod Tariffs
pub mod Rows
pub mod Presenter
pub mod Statements
pub mod Creation
pub mod Progress
pub mod Metering
pub mod Endings
pub mod Platform
pub mod Service
pub mod Events
pub mod Steps
pub mod Effects
pub mod Consistency
pub mod Arrivals
pub mod Moves
pub mod Transactions
pub mod Closings
pub mod Interruptions
pub mod Safety
pub mod Prices
pub mod Demands
pub mod Completion
pub mod Aftermath
mod Tests
