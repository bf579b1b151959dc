-- ===== src/Wallet/Settlement.antt =====
-- `captureReserved` and `releaseReserved`: how a reservation ends.
use Prim.Native.String.{◌++◌}
use ev_charge_platform.Prelude.{
  ℕ, ◌+◌, ℤ, pos, ◌-ℤ◌, ltb_ℤ, eq_ℤ, String, Bool, true, false, not, none, some, Tx, Action, ok,
  lift, throw, throw_if, ◌>>=◌, ◌>>◌, conflict, idempotency_payload_conflict,
  capture_exceeds_reservation,
}
use ev_charge_platform.Money.{Money, bigint, no_options, from_minor_units}
use ev_charge_platform.Database.{Wallet, WalletReservation, ReservationStatus, TransactionType, Db}
use ev_charge_platform.Ledger.{LedgerPosting, HashedRequest}
use ev_charge_platform.Ledger.Posting.{LedgerPostingResult, post}
use ev_charge_platform.Ledger.Transfers.{legs}
use ev_charge_platform.Wallet.{
  Interference, serializable_transaction, WalletOperation, WalletDto, lock_active_wallet,
  update_wallet, current_dto, WalletAccounts, wallet_accounts, record_wallet_event,
}
use ev_charge_platform.Wallet.Operations.{or_default}
use ev_charge_platform.Wallet.Reservations.{lock_reservation, update_reservation, settle_reserved}

abbrev pub capture_posting : WalletOperation → WalletReservation → Money → ℕ → ℕ → LedgerPosting
capture_posting input r money reserved revenue = record {
  charging_session_id = r.charging_session_id;
  description = "Liquidacao de recarga Solis";
  entries = legs reserved revenue money;
  external_reference = none;
  idempotency_key = "wallet:capture:" ++ input.idempotency_key;
  payment_intent_id = r.payment_intent_id;
  tenant_id = input.user.tenant_id;
  transaction_type = TransactionType.capture;
  user_id = some input.user.sub;
}

abbrev pub excess_posting : WalletOperation → WalletReservation → Money → ℕ → ℕ → LedgerPosting
excess_posting input r money reserved available = record {
  charging_session_id = r.charging_session_id;
  description = "Liberacao do excedente da pre-autorizacao";
  entries = legs reserved available money;
  external_reference = none;
  idempotency_key = "wallet:release-excess:" ++ input.idempotency_key;
  payment_intent_id = r.payment_intent_id;
  tenant_id = input.user.tenant_id;
  transaction_type = TransactionType.release;
  user_id = some input.user.sub;
}

abbrev pub release_posting : WalletOperation → Money → ℕ → ℕ → LedgerPosting
release_posting input money reserved available = record {
  charging_session_id = none;
  description = "Liberacao de pre-autorizacao Solis";
  entries = legs reserved available money;
  external_reference = none;
  idempotency_key = "wallet:release:" ++ input.idempotency_key;
  payment_intent_id = none;
  tenant_id = input.user.tenant_id;
  transaction_type = TransactionType.release;
  user_id = some input.user.sub;
}

abbrev pub mark_captured : ℤ → ℤ → WalletReservation → WalletReservation
mark_captured captured released r = record r {
  captured_minor = captured;
  released_minor = released;
  status = ReservationStatus.captured;
  version = r.version + 1;
}

abbrev pub mark_released : ℤ → WalletReservation → WalletReservation
mark_released released r = record r {
  released_minor = released;
  status = ReservationStatus.released;
  version = r.version + 1;
}

-- A step that is taken under a test.
abbrev pub when : Bool → Tx Db (Unit {0}) → Tx Db (Unit {0})
when true m db = m db
when false m db = ok (tt, db)

abbrev dropped : LedgerPostingResult → Tx Db (Unit {0})
dropped r db = ok (tt, db)

module _ (hash : HashedRequest → ℕ) where
  -- The two postings of a capture; neither looks whether the ledger replayed its key.
  unfoldable pub post_capture :
      WalletOperation → WalletReservation → WalletAccounts → Tx Db (Unit {0})
  post_capture input r accounts = when (ltb_ℤ (pos 0) input.money.amount_minor) (
      post hash (capture_posting input r input.money accounts.reserved.id accounts.revenue.id)
      >>= dropped)

  unfoldable pub post_excess :
      WalletOperation → WalletReservation → ℤ → WalletAccounts → Tx Db (Unit {0})
  unfolding from_minor_units
  post_excess input r released accounts = when (ltb_ℤ (pos 0) released) (
      lift (from_minor_units (bigint released) input.money.currency no_options) >>= λ money.
      post hash (excess_posting input r money accounts.reserved.id accounts.available.id)
      >>= dropped)

  unfoldable pub capture_active : WalletOperation → Wallet → WalletReservation → Tx Db WalletDto
  capture_active input wallet r = do
    throw_if (ltb_ℤ r.amount_minor input.money.amount_minor) capture_exceeds_reservation
    accounts ← wallet_accounts wallet.id input.user.tenant_id input.money.currency
    post_capture input r accounts
    let released = r.amount_minor -ℤ input.money.amount_minor
    post_excess input r released accounts
    update_reservation r.id (mark_captured input.money.amount_minor released)
    update_wallet wallet.id (settle_reserved released r.amount_minor)
    record_wallet_event input.user wallet.id "WALLET_BALANCE_CAPTURED" "WalletBalanceCaptured"
        input.correlation_id
    current_dto wallet.id

  -- The branches of `captureReserved` on the state of the reservation.
  unfoldable pub capture_locked :
      ReservationStatus → WalletOperation → Wallet → WalletReservation → Tx Db WalletDto
  capture_locked ReservationStatus.captured input wallet r =
      throw_if (not (eq_ℤ r.captured_minor input.money.amount_minor)) idempotency_payload_conflict
      >> current_dto wallet.id
  capture_locked ReservationStatus.reserved input wallet r = capture_active input wallet r
  capture_locked _ input wallet r = throw conflict

  unfoldable pub capture_reserved_body : ℕ → WalletOperation → Tx Db WalletDto
  capture_reserved_body reservation_id input = do
    wallet ← lock_active_wallet input.user input.money.currency
    r ← lock_reservation reservation_id wallet.id
    capture_locked r.status input wallet r

  unfoldable pub capture_reserved : Interference → ℕ → WalletOperation → Action Db WalletDto
  capture_reserved aborts id input =
      serializable_transaction aborts (capture_reserved_body id input)

  unfoldable pub release_active :
      WalletOperation → String → Wallet → WalletReservation → Tx Db WalletDto
  release_active input currency wallet r = do
    money ← lift (from_minor_units (bigint r.amount_minor) currency no_options)
    accounts ← wallet_accounts wallet.id input.user.tenant_id currency
    posting ← post hash (release_posting input money accounts.reserved.id accounts.available.id)
    update_reservation r.id (mark_released r.amount_minor)
    update_wallet wallet.id (settle_reserved r.amount_minor r.amount_minor)
    record_wallet_event input.user wallet.id "WALLET_RESERVATION_RELEASED"
        "WalletReservationReleased" input.correlation_id
    current_dto wallet.id

  unfoldable pub release_locked :
      ReservationStatus → WalletOperation → String → Wallet → WalletReservation → Tx Db WalletDto
  release_locked ReservationStatus.released input currency wallet r = current_dto wallet.id
  release_locked ReservationStatus.reserved input currency wallet r =
      release_active input currency wallet r
  release_locked _ input currency wallet r = throw conflict

  -- `releaseReserved` takes no money; that field of the input is not read.
  unfoldable pub release_reserved_body : ℕ → WalletOperation → Tx Db WalletDto
  release_reserved_body reservation_id input = do
    let currency = or_default input.currency "BRL"
    wallet ← lock_active_wallet input.user currency
    r ← lock_reservation reservation_id wallet.id
    release_locked r.status input currency wallet r

  unfoldable pub release_reserved : Interference → ℕ → WalletOperation → Action Db WalletDto
  release_reserved aborts id input =
      serializable_transaction aborts (release_reserved_body id input)
