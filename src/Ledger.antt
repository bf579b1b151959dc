-- ===== src/Ledger.antt =====
-- The double-entry ledger (apps/backend/src/payments/ledger/ledger.service.ts and
-- ledger.repository.ts). A method that takes a transaction client is a `Tx` on the database.
-- `hash` stands for `financialRequestHash`, SHA-256 of the canonical JSON of a request.
mod Requests
mod Checks
pub mod Posting
pub mod Reversal
pub mod Balance
pub mod Effects
pub mod Writes
pub mod Transfers
pub mod DoubleEntry
pub mod Replay
pub mod Undoing
mod Tests
unfoldable pub use Requests.*
unfoldable pub use Checks.*
