-- ===== src/Wallet.antt =====
-- The wallet of a driver (apps/backend/src/payments/wallet/wallet.service.ts and
-- wallet.repository.ts): every method posts to the ledger and moves the two balances of the row.
mod Support
mod Retry
pub mod Attempts
pub mod Operations
pub mod Reservations
pub mod Settlement
pub mod Invariant
pub mod Accounts
pub mod Movement
pub mod Steps
pub mod Holds
pub mod Releases
pub mod Captures
pub mod Reconciliation
pub mod Consistency
pub mod Tests
unfoldable pub use Support.*
unfoldable pub use Retry.*
