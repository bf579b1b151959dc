-- ===== src/Database/Rows.antt =====
-- Rows, the columns they are searched by, and the database as the tables together.
use ev_charge_platform.Prelude.{
  ℕ, ◌≡◌, ◌↔◌, ℤ, String, Bool, true, ◌&&◌, Option, List, Comparable, ◌==◌, ℕ_eq, String_eq, eq_iff,
  arith,
}
use ev_charge_platform.Database.Enums.{
  OwnerType, OwnerType_eq, AccountType, AccountType_eq, AccountStatus, Direction, TransactionType,
  TransactionStatus, WalletStatus, ReservationStatus,
}

-- `AuthUser` (apps/backend/src/auth/auth-user.ts); only the role SYSTEM is told apart.
pub record AuthUser : Type 0 where
  pub sub : ℕ
  pub tenant_id : ℕ
  pub is_system : Bool

-- The columns under which a ledger account is unique.
pub record AccountKey : Type 0 where
  pub tenant_id : ℕ
  pub owner_type : OwnerType
  pub owner_id : ℕ
  pub account_type : AccountType
  pub currency : String

unfoldable pub same_account_key : AccountKey → AccountKey → Bool
same_account_key a b =
    a.tenant_id == b.tenant_id
    && a.owner_type == b.owner_type
    && a.owner_id == b.owner_id
    && a.account_type == b.account_type
    && a.currency == b.currency

pub same_account_key_iff : (a b : AccountKey) → (same_account_key a b ≡ true) ↔ (a ≡ b)
unfolding same_account_key
same_account_key_iff a b = ground (arith, eq_iff a.currency b.currency)

instance abbrev pub AccountKey_eq : Comparable AccountKey
AccountKey_eq = record { same = same_account_key; tells = same_account_key_iff }

pub record LedgerAccount : Type 0 where
  pub id : ℕ
  pub key : AccountKey
  pub status : AccountStatus

pub record LedgerEntry : Type 0 where
  pub account_id : ℕ
  pub amount_minor : ℤ
  pub currency : String
  pub direction : Direction

-- The columns under which a ledger transaction is unique.
pub record TransactionKey : Type 0 where
  pub tenant_id : ℕ
  pub idempotency_key : String

unfoldable pub same_transaction_key : TransactionKey → TransactionKey → Bool
same_transaction_key a b = a.tenant_id == b.tenant_id && a.idempotency_key == b.idempotency_key

pub same_transaction_key_iff : (a b : TransactionKey) → (same_transaction_key a b ≡ true) ↔ (a ≡ b)
unfolding same_transaction_key
same_transaction_key_iff a b = ground (arith, eq_iff a.idempotency_key b.idempotency_key)

instance abbrev pub TransactionKey_eq : Comparable TransactionKey
TransactionKey_eq = record { same = same_transaction_key; tells = same_transaction_key_iff }

pub record LedgerTransaction : Type 0 where
  pub id : ℕ
  pub key : TransactionKey
  pub request_hash : ℕ
  pub status : TransactionStatus
  pub transaction_type : TransactionType
  pub description : String
  pub charging_session_id : Option ℕ
  pub payment_intent_id : Option ℕ
  pub reversal_of_id : Option ℕ
  pub external_reference : Option ℕ
  pub entries : List LedgerEntry

-- The columns under which a wallet is unique, with `deletedAt IS NOT NULL` beside them.
pub record WalletOwner : Type 0 where
  pub tenant_id : ℕ
  pub user_id : ℕ
  pub currency : String

unfoldable pub same_wallet_owner : WalletOwner → WalletOwner → Bool
same_wallet_owner a b =
    a.tenant_id == b.tenant_id && a.user_id == b.user_id && a.currency == b.currency

pub same_wallet_owner_iff : (a b : WalletOwner) → (same_wallet_owner a b ≡ true) ↔ (a ≡ b)
unfolding same_wallet_owner
same_wallet_owner_iff a b = ground (arith, eq_iff a.currency b.currency)

instance abbrev pub WalletOwner_eq : Comparable WalletOwner
WalletOwner_eq = record { same = same_wallet_owner; tells = same_wallet_owner_iff }

pub record Wallet : Type 0 where
  pub id : ℕ
  pub owner : WalletOwner
  pub available_balance_minor : ℤ
  pub reserved_balance_minor : ℤ
  pub status : WalletStatus
  pub deleted : Bool
  pub version : ℕ

-- The columns under which a reservation is unique.
pub record ReservationKey : Type 0 where
  pub wallet_id : ℕ
  pub idempotency_key : String

unfoldable pub same_reservation_key : ReservationKey → ReservationKey → Bool
same_reservation_key a b = a.wallet_id == b.wallet_id && a.idempotency_key == b.idempotency_key

pub same_reservation_key_iff : (a b : ReservationKey) → (same_reservation_key a b ≡ true) ↔ (a ≡ b)
unfolding same_reservation_key
same_reservation_key_iff a b = ground (arith, eq_iff a.idempotency_key b.idempotency_key)

instance abbrev pub ReservationKey_eq : Comparable ReservationKey
ReservationKey_eq = record { same = same_reservation_key; tells = same_reservation_key_iff }

pub record WalletReservation : Type 0 where
  pub id : ℕ
  pub key : ReservationKey
  pub amount_minor : ℤ
  pub captured_minor : ℤ
  pub released_minor : ℤ
  pub currency : String
  pub charging_session_id : Option ℕ
  pub payment_intent_id : Option ℕ
  pub request_hash : ℕ
  pub status : ReservationStatus
  pub version : ℕ

-- A row of `audit_logs` without its `before` and `after` documents.
pub record AuditEntry : Type 0 where
  pub action : String
  pub entity_type : String
  pub entity_id : ℕ
  pub tenant_id : ℕ
  pub user_id : Option ℕ
  pub correlation_id : Option ℕ

-- A row of `outbox_events` without its payload.
pub record DomainEvent : Type 0 where
  pub aggregate_type : String
  pub aggregate_id : ℕ
  pub event_type : String
  pub tenant_id : ℕ

pub record Db : Type 0 where
  pub next_id : ℕ
  pub accounts : List LedgerAccount
  pub transactions : List LedgerTransaction
  pub wallets : List Wallet
  pub reservations : List WalletReservation
  pub audit_log : List AuditEntry
  pub outbox : List DomainEvent
