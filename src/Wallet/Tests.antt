-- ===== src/Wallet/Tests.antt =====
-- A wallet that is credited, reserved from, captured and released from, and each theorem of the
-- wallet along the way.
use ev_charge_platform.Prelude.{
  ℕ, zero, suc, ◌-ℤ◌, ◌≡◌, refl, pos, String, false, none, some, [], ◌∷◌, err,
  financial_concurrency_conflict, arith, map, find, Tx, ℕ_eq,
}
use ev_charge_platform.Money.{Money, from_minor_units, matches_currency}
use ev_charge_platform.Database.{
  AuthUser, WalletOwner, Wallet, WalletStatus, Db, same_account_key, same_transaction_key,
  same_wallet_owner, same_reservation_key,
}
use ev_charge_platform.Ledger.{HashedRequest, account, assert_balanced, check_accounts}
use ev_charge_platform.Ledger.Posting.{
  post, post_new, create_pending, pending_row, breaks_constraints,
}
use ev_charge_platform.Ledger.Balance.{balance}
use ev_charge_platform.Ledger.Effects.{HasSoundBooks}
use ev_charge_platform.Wallet.{
  Interference, serializable_transaction, WalletOperation, lock_active_wallet, find_owned,
  update_wallet, current_dto, wallet_accounts, record_wallet_event, wallet_id_of,
}
use ev_charge_platform.Wallet.Operations.{credit, credit_body, refund}
use ev_charge_platform.Wallet.Reservations.{
  update_reservation, lock_reservation, reserve, reserve_body, reserve_new, reserve_locked,
  insert_reservation,
}
use ev_charge_platform.Wallet.Settlement.{
  release_active, release_locked, post_excess, post_capture, capture_active, capture_locked,
  capture_reserved, capture_reserved_body, release_reserved, release_reserved_body,
}
use ev_charge_platform.Wallet.Holds.{IsUnseen}
use ev_charge_platform.Wallet.Invariant.{Reconciles, Agrees}
use ev_charge_platform.Wallet.Attempts.{
  Outcome, serializable_transaction-Outcome, concurrency_conflict-unreachable,
}
use ev_charge_platform.Wallet.Consistency.{
  Leave, IsReady, credit-Reconciles, refund-Reconciles, reserve-Reconciles,
  release_reserved-Reconciles, capture_reserved-Reconciles,
}

abbrev pub hash_zero : HashedRequest → ℕ
hash_zero r = 0

abbrev pub driver : AuthUser
driver = record { sub = 4; tenant_id = 9; is_system = false }

abbrev pub reais : ℕ → Money
reais n = record {
  amount_minor = pos n;
  currency = "BRL";
  maximum_amount_minor = pos 100_000_000_000;
}

abbrev pub operation : String → ℕ → WalletOperation
operation key n = record {
  correlation_id = 1;
  currency = none;
  idempotency_key = key;
  ledger_type = none;
  money = reais n;
  payment_intent_id = none;
  charging_session_id = none;
  user = driver;
}

abbrev opened_wallet : Wallet
opened_wallet = record {
  id = 1;
  owner = record { tenant_id = 9; user_id = 4; currency = "BRL" };
  available_balance_minor = pos 0;
  reserved_balance_minor = pos 0;
  status = WalletStatus.active;
  deleted = false;
  version = 1;
}

abbrev pub start : Db
start = record {
  next_id = 2;
  accounts = [];
  transactions = [];
  wallets = opened_wallet ∷ [];
  reservations = [];
  audit_log = [];
  outbox = [];
}

abbrev pub never : Interference
never n = none

pub never-leaves : (P : Db → Type 0) → Leave P never
never-leaves P n d h = cc

start-books : HasSoundBooks start
start-books = record { fresh = λ k a h. cc; apart = λ k l a b h g e. cc; unused = λ n h. refl }

start-rows : (id : ℕ) (w : Wallet) → find wallet_id_of id start.wallets ≡ some w → w ≡ opened_wallet
start-rows id w h = ground arith

start-Agrees : (w : Wallet) → w ≡ opened_wallet → Agrees start w
unfolding balance
start-Agrees w e = rw e (record { available = refl; reserved = refl })

owned_start :
    (owner : WalletOwner) (w : Wallet)
    → find_owned owner start.wallets ≡ some w
    → find wallet_id_of w.id start.wallets ≡ some w
unfolding find_owned
owned_start owner w h = ground arith

pub start-Reconciles : Reconciles start
start-Reconciles = record {
  books = start-books;
  rows = λ id w h. start-Agrees w (start-rows id w h);
  owned = λ owner w h. owned_start owner w h;
}

abbrev pub credited : Db
credited = (credit hash_zero never (operation "a" 1000) start).1

abbrev reserved : Db
reserved = (reserve hash_zero never (operation "b" 600) credited).1

credit-Reconciles_example : Reconciles credited
credit-Reconciles_example =
    credit-Reconciles hash_zero never (operation "a" 1000) start (never-leaves Reconciles)
      start-Reconciles

credited_wallet : map (λ (w : Wallet). w.available_balance_minor) credited.wallets ≡ pos 1000 ∷ []
unfolding credit credit_body serializable_transaction lock_active_wallet find_owned
    same_wallet_owner wallet_accounts account same_account_key post update_wallet
    record_wallet_event current_dto matches_currency post_new assert_balanced check_accounts
    create_pending breaks_constraints
credited_wallet = refl

reserved_wallet :
    (map (λ (w : Wallet). w.available_balance_minor) reserved.wallets ≡ pos 400 ∷ [])
    × (map (λ (w : Wallet). w.reserved_balance_minor) reserved.wallets ≡ pos 600 ∷ [])
unfolding credit credit_body serializable_transaction lock_active_wallet find_owned
    same_wallet_owner wallet_accounts account same_account_key post update_wallet
    record_wallet_event current_dto matches_currency post_new assert_balanced check_accounts
    create_pending breaks_constraints reserve reserve_body reserve_locked reserve_new
    same_reservation_key insert_reservation same_transaction_key pending_row ◌-ℤ◌
reserved_wallet = (refl, refl)

credited-IsReady : IsReady 9 "wallet:reserve:b" credited
unfolding credit credit_body serializable_transaction lock_active_wallet find_owned
    same_wallet_owner wallet_accounts account same_account_key post update_wallet
    record_wallet_event current_dto matches_currency post_new assert_balanced check_accounts
    create_pending breaks_constraints reserve reserve_body reserve_locked reserve_new
    same_reservation_key insert_reservation same_transaction_key pending_row
credited-IsReady = record { agrees = credit-Reconciles_example; unseen = refl }

reserve-Reconciles_example : Reconciles reserved
reserve-Reconciles_example =
    reserve-Reconciles hash_zero never (operation "b" 600) credited
      (never-leaves (IsReady 9 "wallet:reserve:b")) credited-IsReady

reserved-IsReady : (key : String) → IsUnseen 9 key reserved → IsReady 9 key reserved
reserved-IsReady key h = record { agrees = reserve-Reconciles_example; unseen = h }

-- The reservation has number 8: five accounts and the transaction of the credit come before it.
abbrev captured : Db
captured = (capture_reserved hash_zero never 8 (operation "c" 450) reserved).1

abbrev released : Db
released = (release_reserved hash_zero never 8 (operation "d" 0) reserved).1

IsUnseen-capture :
    IsUnseen 9 "wallet:capture:c" reserved × IsUnseen 9 "wallet:release-excess:c" reserved
unfolding credit credit_body serializable_transaction lock_active_wallet find_owned
    same_wallet_owner wallet_accounts account same_account_key post update_wallet
    record_wallet_event current_dto matches_currency post_new assert_balanced check_accounts
    create_pending breaks_constraints reserve reserve_body reserve_locked reserve_new
    same_reservation_key insert_reservation same_transaction_key pending_row ◌-ℤ◌
IsUnseen-capture = (refl, refl)

IsUnseen-release : IsUnseen 9 "wallet:release:d" reserved
unfolding credit credit_body serializable_transaction lock_active_wallet find_owned
    same_wallet_owner wallet_accounts account same_account_key post update_wallet
    record_wallet_event current_dto matches_currency post_new assert_balanced check_accounts
    create_pending breaks_constraints reserve reserve_body reserve_locked reserve_new
    same_reservation_key insert_reservation same_transaction_key pending_row ◌-ℤ◌
IsUnseen-release = refl

captured_wallet :
    (map (λ (w : Wallet). w.available_balance_minor) captured.wallets ≡ pos 550 ∷ [])
    × (map (λ (w : Wallet). w.reserved_balance_minor) captured.wallets ≡ pos 0 ∷ [])
unfolding credit credit_body serializable_transaction lock_active_wallet find_owned
    same_wallet_owner wallet_accounts account same_account_key post update_wallet
    record_wallet_event current_dto matches_currency post_new assert_balanced check_accounts
    create_pending breaks_constraints reserve reserve_body reserve_locked reserve_new
    same_reservation_key insert_reservation same_transaction_key pending_row capture_reserved
    capture_reserved_body ◌-ℤ◌ lock_reservation capture_locked capture_active post_capture
    post_excess update_reservation
captured_wallet = (refl, refl)

released_wallet : map (λ (w : Wallet). w.available_balance_minor) released.wallets ≡ pos 1000 ∷ []
unfolding credit credit_body serializable_transaction lock_active_wallet find_owned
    same_wallet_owner wallet_accounts account same_account_key post update_wallet
    record_wallet_event current_dto matches_currency post_new assert_balanced check_accounts
    create_pending breaks_constraints reserve reserve_body reserve_locked reserve_new
    same_reservation_key insert_reservation same_transaction_key pending_row release_reserved
    release_reserved_body ◌-ℤ◌ lock_reservation release_locked release_active from_minor_units
    update_reservation
released_wallet = refl

capture_reserved-Reconciles_example : Reconciles captured
capture_reserved-Reconciles_example =
    capture_reserved-Reconciles hash_zero never (operation "c" 450) reserved 8
      (never-leaves λ d. IsReady 9 "wallet:capture:c" d × IsUnseen 9 "wallet:release-excess:c" d)
      (reserved-IsReady "wallet:capture:c" IsUnseen-capture.0) IsUnseen-capture.1

release_reserved-Reconciles_example : Reconciles released
release_reserved-Reconciles_example =
    release_reserved-Reconciles hash_zero never (operation "d" 0) reserved 8
      (never-leaves (IsReady 9 "wallet:release:d"))
      (reserved-IsReady "wallet:release:d" IsUnseen-release)

refund-Reconciles_example : Reconciles (refund hash_zero never (operation "e" 250) credited).1
refund-Reconciles_example =
    refund-Reconciles hash_zero never (operation "e" 250) credited (never-leaves Reconciles)
      credit-Reconciles_example

-- The first attempt is aborted, the second is not.
abbrev once : Interference
once zero = some credited
once (suc n) = none

serializable_transaction-Outcome_example :
    Outcome once
      (credit_body hash_zero (operation "a" 1000))
      start
      (serializable_transaction once (credit_body hash_zero (operation "a" 1000)) start)
serializable_transaction-Outcome_example =
    serializable_transaction-Outcome once (credit_body hash_zero (operation "a" 1000)) start

abbrev throws_conflict : Tx Db ℕ
throws_conflict d = err financial_concurrency_conflict

thrown :
    (serializable_transaction never throws_conflict start).0 ≡ err financial_concurrency_conflict
unfolding serializable_transaction
thrown = refl

concurrency_conflict-unreachable_example :
    (d : Db) × (throws_conflict d ≡ err financial_concurrency_conflict)
concurrency_conflict-unreachable_example =
    concurrency_conflict-unreachable never throws_conflict start thrown
