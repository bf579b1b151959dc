-- ===== src/Wallet/Support.antt =====
-- The private methods of `WalletService`, its repository, and the checks of its tables.
use ev_charge_platform.Prelude.{
  ℕ, pos, ltb_ℤ, ℕ_eq, String, Bool, true, false, not, ◌&&◌, ◌||◌, Option, none, some, List, [],
  ◌∷◌, find, update, ◌==◌, Tx, ok, err, pure, ◌>>=◌, ◌>>◌, not_found, wallet_not_active,
  constraint_violation, if◌then◌else◌,
}
use ev_charge_platform.Money.{Money, show_integer}
use ev_charge_platform.Database.{
  AuthUser, OwnerType, AccountType, AccountKey, LedgerAccount, Wallet, WalletOwner, WalletOwner_eq,
  WalletStatus, WalletStatus_eq, WalletReservation, ReservationStatus, TransactionType, Db,
}
use ev_charge_platform.Ledger.{account, write_audit, publish}

-- `WalletOperation`, with the session that `reserve` takes besides.
pub record WalletOperation : Type 0 where
  pub correlation_id : ℕ
  pub currency : Option String
  pub idempotency_key : String
  pub ledger_type : Option TransactionType
  pub money : Money
  pub payment_intent_id : Option ℕ
  pub charging_session_id : Option ℕ
  pub user : AuthUser

pub record WalletDto : Type 0 where
  pub available_balance_minor : List ℕ
  pub currency : String
  pub id : ℕ
  pub reserved_balance_minor : List ℕ
  pub status : WalletStatus
  pub version : ℕ

pub record ReservationDto : Type 0 where
  pub amount_minor : List ℕ
  pub captured_minor : List ℕ
  pub currency : String
  pub id : ℕ
  pub released_minor : List ℕ
  pub status : ReservationStatus

unfoldable pub to_dto : Wallet → WalletDto
unfolding show_integer
to_dto w = record {
  available_balance_minor = show_integer w.available_balance_minor;
  currency = w.owner.currency;
  id = w.id;
  reserved_balance_minor = show_integer w.reserved_balance_minor;
  status = w.status;
  version = w.version;
}

unfoldable pub reservation_dto : WalletReservation → ReservationDto
unfolding show_integer
reservation_dto r = record {
  amount_minor = show_integer r.amount_minor;
  captured_minor = show_integer r.captured_minor;
  currency = r.currency;
  id = r.id;
  released_minor = show_integer r.released_minor;
  status = r.status;
}

abbrev pub wallet_id_of : Wallet → ℕ
wallet_id_of w = w.id

-- `findOwned` and `lockOwned`: the wallet of the owner that is not deleted.
unfoldable pub find_owned : WalletOwner → List Wallet → Option Wallet
find_owned owner [] = none
find_owned owner (w ∷ ws) =
    if w.owner == owner && not w.deleted then some w else find_owned owner ws

abbrev pub owner_of : AuthUser → String → WalletOwner
owner_of user currency = record {
  tenant_id = user.tenant_id;
  user_id = user.sub;
  currency = currency;
}

unfoldable pub lock_active_wallet : AuthUser → String → Tx Db Wallet
unfolding find_owned
lock_active_wallet user currency db = elim (find_owned (owner_of user currency) db.wallets) [
  | none ↦ err not_found
  | some w ↦ if w.status == WalletStatus.active then ok (w, db) else err wallet_not_active
]

-- The wallet's check: no balance is negative.
unfoldable pub breaks_wallet_check : Wallet → Bool
breaks_wallet_check w =
    ltb_ℤ w.available_balance_minor (pos 0) || ltb_ℤ w.reserved_balance_minor (pos 0)

unfoldable pub update_wallet : ℕ → (Wallet → Wallet) → Tx Db (Unit {0})
unfolding breaks_wallet_check
update_wallet id change db = elim (find wallet_id_of id db.wallets) [
  | none ↦ err not_found
  | some w ↦
      if breaks_wallet_check (change w)
      then err constraint_violation
      else ok (tt, record db { wallets = update wallet_id_of id change db.wallets })
]

-- A step that is taken unless the posting before it was a replay.
abbrev pub unless : Bool → Tx Db (Unit {0}) → Tx Db (Unit {0})
unless true m db = ok (tt, db)
unless false m db = m db

-- `currentDto`: the row as it stands now.
unfoldable pub current_dto : ℕ → Tx Db WalletDto
unfolding to_dto
current_dto id db = elim (find wallet_id_of id db.wallets) [
  | none ↦ err not_found
  | some w ↦ ok (to_dto w, db)
]

abbrev pub user_key : ℕ → String → ℕ → AccountType → AccountKey
user_key tenant currency wallet type = record {
  tenant_id = tenant;
  owner_type = OwnerType.user;
  owner_id = wallet;
  account_type = type;
  currency = currency;
}

abbrev pub platform_key : ℕ → String → AccountType → AccountKey
platform_key tenant currency type = record {
  tenant_id = tenant;
  owner_type = OwnerType.platform;
  owner_id = tenant;
  account_type = type;
  currency = currency;
}

pub record WalletAccounts : Type 0 where
  pub available : LedgerAccount
  pub reserved : LedgerAccount
  pub clearing : LedgerAccount
  pub revenue : LedgerAccount
  pub refund : LedgerAccount

-- `accounts`: the five accounts that a wallet's postings run between.
unfoldable pub wallet_accounts : ℕ → ℕ → String → Tx Db WalletAccounts
wallet_accounts wallet tenant currency = do
  available ← account (user_key tenant currency wallet AccountType.user_wallet_available)
  reserved ← account (user_key tenant currency wallet AccountType.user_wallet_reserved)
  clearing ← account (platform_key tenant currency AccountType.payment_gateway_clearing)
  revenue ← account (platform_key tenant currency AccountType.operator_revenue)
  refund ← account (platform_key tenant currency AccountType.refund_clearing)
  pure (record {
    available = available;
    reserved = reserved;
    clearing = clearing;
    revenue = revenue;
    refund = refund;
  })

unfoldable pub record_wallet_event : AuthUser → ℕ → String → String → ℕ → Tx Db (Unit {0})
record_wallet_event user wallet action event_type correlation = do
  write_audit (record {
    action = action;
    entity_type = "Wallet";
    entity_id = wallet;
    tenant_id = user.tenant_id;
    user_id = some user.sub;
    correlation_id = some correlation;
  })
  publish (record {
    aggregate_type = "Wallet";
    aggregate_id = wallet;
    event_type = event_type;
    tenant_id = user.tenant_id;
  })
