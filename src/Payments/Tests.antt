-- ===== src/Payments/Tests.antt =====
-- A session whose payment is authorized: its settlement and its cancellation.
use ev_charge_platform.Prelude.{ok}
use ev_charge_platform.Prelude.{
  ◌-ℤ◌, ◌≡◌, refl, pos, false, none, some, [], ◌∷◌, err, map, capture_exceeds_authorization,
}
use ev_charge_platform.Prelude.Methods.{returns, ◌>>=◌}
use ev_charge_platform.Money.{matches_currency}
use ev_charge_platform.Database.{
  IntentStatus, IntentType, Wallet, WalletReservation, ReservationStatus, Db, same_account_key,
  same_transaction_key, same_wallet_owner, same_reservation_key,
}
use ev_charge_platform.Ledger.{account, assert_balanced, check_accounts}
use ev_charge_platform.Ledger.Posting.{
  post, post_new, create_pending, pending_row, breaks_constraints,
}
use ev_charge_platform.Wallet.{
  serializable_transaction, WalletOperation, lock_active_wallet, find_owned, update_wallet,
  current_dto, wallet_accounts, record_wallet_event,
}
use ev_charge_platform.Wallet.Operations.{credit, credit_body}
use ev_charge_platform.Wallet.Reservations.{
  reserve, reserve_body, reserve_new, reserve_locked, insert_reservation,
}
use ev_charge_platform.Wallet.Invariant.{Reconciles}
use ev_charge_platform.Wallet.Consistency.{IsReady, credit-Reconciles, reserve-Reconciles}
use ev_charge_platform.Wallet.Tests.{
  hash_zero, driver, reais, operation, start, never, never-leaves, start-Reconciles, credited,
}
use ev_charge_platform.Intents.Service.{PaymentIntent}
use ev_charge_platform.Sessions.Platform.{ChargingFinancialContext}
use ev_charge_platform.Payments.Policy.{
  PaymentsMode, PaymentsDb, Surroundings, find_config, find_session_intent, is_session_intent,
  find_session_reservation, on_wallet, on_intents,
}
use ev_charge_platform.Payments.Settling.{
  settle, cancel, session_intent, settle_intent, settle_authorized, exceeds, capture_intent,
  cancel_intent, release_hold,
}
use ev_charge_platform.Wallet.Reservations.{lock_reservation, update_reservation}
use ev_charge_platform.Wallet.Settlement.{
  release_active, release_locked, post_excess, post_capture, capture_active, capture_locked,
  capture_reserved, capture_reserved_body, release_reserved, release_reserved_body,
}
use ev_charge_platform.Intents.{assert_payment_intent_transition}
use ev_charge_platform.Intents.Service.{
  transition, write_status, update_intent, breaks_intent_check, record_change, moved_to_status,
  find_intent,
}
use ev_charge_platform.Payments.Limits.{IsWithin}
use ev_charge_platform.Payments.Calls.{IsQuiet}
use ev_charge_platform.Payments.Captures.{IsCaptured, settle-captures}
use ev_charge_platform.Payments.Cancellation.{HoldReleased, PaymentClosed, cancel-closes}

abbrev session_hold : WalletOperation
session_hold = record (operation "b" 600) {
  charging_session_id = some 50;
  payment_intent_id = some 3;
}

abbrev held : Db
held = (reserve hash_zero never session_hold credited).1

credited-IsReady : IsReady 9 "wallet:reserve:b" credited
unfolding credit credit_body serializable_transaction lock_active_wallet find_owned
    same_wallet_owner wallet_accounts account same_account_key post update_wallet
    record_wallet_event current_dto matches_currency post_new assert_balanced check_accounts
    create_pending breaks_constraints reserve reserve_body reserve_locked reserve_new
    same_reservation_key insert_reservation same_transaction_key pending_row ◌-ℤ◌
credited-IsReady = record {
  agrees =
      credit-Reconciles hash_zero never (operation "a" 1000) start (never-leaves Reconciles)
        start-Reconciles;
  unseen = refl;
}

held-Reconciles : Reconciles held
held-Reconciles =
    reserve-Reconciles hash_zero never session_hold credited
      (never-leaves (IsReady 9 "wallet:reserve:b")) credited-IsReady

abbrev authorized_intent : PaymentIntent
authorized_intent = record {
  id = 3;
  key = record { tenant_id = 9; idempotency_key = "b" };
  user_id = 4;
  request_hash = 0;
  status = IntentStatus.authorized;
  intent_type = IntentType.charging_authorization;
  provider = "solis-wallet";
  provider_reference = none;
  charging_session_id = some 50;
  currency = "BRL";
  amount_minor = pos 600;
  authorized_amount_minor = pos 600;
  captured_amount_minor = pos 0;
  refunded_amount_minor = pos 0;
  deleted = false;
  version = 3;
}

abbrev site : PaymentsDb
site = record {
  wallet = held;
  intents = record { intents = authorized_intent ∷ []; audit_log = []; outbox = []; next_id = 4 };
  configs =
      record {
        tenant_id = 9;
        currency = "BRL";
        pre_authorization_amount_minor = pos 600;
        maximum_session_amount_minor = pos 2000;
      }
      ∷ [];
}

abbrev calm : Surroundings
calm = record {
  mode = PaymentsMode.mock;
  maximum_money_minor = pos 100_000;
  number_text = λ n. "50";
  hash = hash_zero;
  intent_hash = λ i. 0;
  reference_of = λ n. n;
  aborts = never;
  others = λ n s. s;
  between = λ n d. d;
  issue_receipt = λ session intent amount user correlation. returns tt;
  evaluate_auto_recharge = λ user correlation. returns tt;
}

abbrev charge : ChargingFinancialContext
charge = record { charging_session_id = 50; currency = "BRL" }

abbrev settled : PaymentsDb
settled = (settle calm charge (reais 450) driver 1 site).1

abbrev released : PaymentsDb
released = (cancel calm 50 driver 1 site).1

settled_wallet :
    map (λ (w : Wallet). w.available_balance_minor) settled.wallet.wallets ≡ pos 550 ∷ []
unfolding credit credit_body serializable_transaction lock_active_wallet find_owned
    same_wallet_owner wallet_accounts account same_account_key post update_wallet
    record_wallet_event current_dto matches_currency post_new assert_balanced check_accounts
    create_pending breaks_constraints reserve reserve_body reserve_locked reserve_new
    same_reservation_key insert_reservation same_transaction_key pending_row ◌-ℤ◌ settle cancel
    session_intent settle_intent settle_authorized exceeds capture_intent ◌>>=◌ find_config
    find_session_intent is_session_intent find_session_reservation on_wallet on_intents transition
    write_status update_intent breaks_intent_check record_change moved_to_status find_intent
    assert_payment_intent_transition capture_reserved capture_reserved_body lock_reservation
    capture_locked capture_active post_capture post_excess update_reservation release_reserved
    release_reserved_body release_locked release_active cancel_intent release_hold
settled_wallet = refl

settled_intent :
    map (λ (i : PaymentIntent). i.status) settled.intents.intents ≡ IntentStatus.captured ∷ []
unfolding credit credit_body serializable_transaction lock_active_wallet find_owned
    same_wallet_owner wallet_accounts account same_account_key post update_wallet
    record_wallet_event current_dto matches_currency post_new assert_balanced check_accounts
    create_pending breaks_constraints reserve reserve_body reserve_locked reserve_new
    same_reservation_key insert_reservation same_transaction_key pending_row ◌-ℤ◌ settle cancel
    session_intent settle_intent settle_authorized exceeds capture_intent ◌>>=◌ find_config
    find_session_intent is_session_intent find_session_reservation on_wallet on_intents transition
    write_status update_intent breaks_intent_check record_change moved_to_status find_intent
    assert_payment_intent_transition capture_reserved capture_reserved_body lock_reservation
    capture_locked capture_active post_capture post_excess update_reservation release_reserved
    release_reserved_body release_locked release_active cancel_intent release_hold
settled_intent = refl

released_wallet :
    map (λ (w : Wallet). w.available_balance_minor) released.wallet.wallets ≡ pos 1000 ∷ []
unfolding credit credit_body serializable_transaction lock_active_wallet find_owned
    same_wallet_owner wallet_accounts account same_account_key post update_wallet
    record_wallet_event current_dto matches_currency post_new assert_balanced check_accounts
    create_pending breaks_constraints reserve reserve_body reserve_locked reserve_new
    same_reservation_key insert_reservation same_transaction_key pending_row ◌-ℤ◌ settle cancel
    session_intent settle_intent settle_authorized exceeds capture_intent ◌>>=◌ find_config
    find_session_intent is_session_intent find_session_reservation on_wallet on_intents transition
    write_status update_intent breaks_intent_check record_change moved_to_status find_intent
    assert_payment_intent_transition capture_reserved capture_reserved_body lock_reservation
    capture_locked capture_active post_capture post_excess update_reservation release_reserved
    release_reserved_body release_locked release_active cancel_intent release_hold
released_wallet = refl

-- A settlement that asks for more than was authorized.
refused_settlement :
    (settle calm charge (reais 601) driver 1 site).0 ≡ err capture_exceeds_authorization
unfolding credit credit_body serializable_transaction lock_active_wallet find_owned
    same_wallet_owner wallet_accounts account same_account_key post update_wallet
    record_wallet_event current_dto matches_currency post_new assert_balanced check_accounts
    create_pending breaks_constraints reserve reserve_body reserve_locked reserve_new
    same_reservation_key insert_reservation same_transaction_key pending_row ◌-ℤ◌ settle cancel
    session_intent settle_intent settle_authorized exceeds capture_intent ◌>>=◌ find_config
    find_session_intent is_session_intent find_session_reservation on_wallet on_intents transition
    write_status update_intent breaks_intent_check record_change moved_to_status find_intent
    assert_payment_intent_transition capture_reserved capture_reserved_body lock_reservation
    capture_locked capture_active post_capture post_excess update_reservation release_reserved
    release_reserved_body release_locked release_active cancel_intent release_hold
refused_settlement = refl

-- The hold of a payment that a refused settlement has sent to review is still released by a cancel.
abandoned_hold :
    map
      (λ (r : WalletReservation). r.status)
      (cancel calm 50 driver 1
        (settle calm charge (reais 601) driver 1 site).1).1.wallet.reservations
    ≡ ReservationStatus.released ∷ []
unfolding credit credit_body serializable_transaction lock_active_wallet find_owned
    same_wallet_owner wallet_accounts account same_account_key post update_wallet
    record_wallet_event current_dto matches_currency post_new assert_balanced check_accounts
    create_pending breaks_constraints reserve reserve_body reserve_locked reserve_new
    same_reservation_key insert_reservation same_transaction_key pending_row ◌-ℤ◌ settle cancel
    session_intent settle_intent settle_authorized exceeds capture_intent ◌>>=◌ find_config
    find_session_intent is_session_intent find_session_reservation on_wallet on_intents transition
    write_status update_intent breaks_intent_check record_change moved_to_status find_intent
    assert_payment_intent_transition capture_reserved capture_reserved_body lock_reservation
    capture_locked capture_active post_capture post_excess update_reservation release_reserved
    release_reserved_body release_locked release_active cancel_intent release_hold
abandoned_hold = refl

quiet : IsQuiet calm
quiet = record { outside = refl; inside = refl }

session_payment :
    (find_session_intent 50 driver site.intents.intents ≡ some authorized_intent)
    × (find_intent 3 driver site.intents.intents ≡ some authorized_intent)
unfolding credit credit_body serializable_transaction lock_active_wallet find_owned
    same_wallet_owner wallet_accounts account same_account_key post update_wallet
    record_wallet_event current_dto matches_currency post_new assert_balanced check_accounts
    create_pending breaks_constraints reserve reserve_body reserve_locked reserve_new
    same_reservation_key insert_reservation same_transaction_key pending_row ◌-ℤ◌ settle cancel
    session_intent settle_intent settle_authorized exceeds capture_intent ◌>>=◌ find_config
    find_session_intent is_session_intent find_session_reservation on_wallet on_intents transition
    write_status update_intent breaks_intent_check record_change moved_to_status find_intent
    assert_payment_intent_transition capture_reserved capture_reserved_body lock_reservation
    capture_locked capture_active post_capture post_excess update_reservation release_reserved
    release_reserved_body release_locked release_active cancel_intent release_hold
session_payment = (refl, refl)

settles : settle calm charge (reais 450) driver 1 site ≡ (ok tt, settled)
unfolding credit credit_body serializable_transaction lock_active_wallet find_owned
    same_wallet_owner wallet_accounts account same_account_key post update_wallet
    record_wallet_event current_dto matches_currency post_new assert_balanced check_accounts
    create_pending breaks_constraints reserve reserve_body reserve_locked reserve_new
    same_reservation_key insert_reservation same_transaction_key pending_row ◌-ℤ◌ settle cancel
    session_intent settle_intent settle_authorized exceeds capture_intent ◌>>=◌ find_config
    find_session_intent is_session_intent find_session_reservation on_wallet on_intents transition
    write_status update_intent breaks_intent_check record_change moved_to_status find_intent
    assert_payment_intent_transition capture_reserved capture_reserved_body lock_reservation
    capture_locked capture_active post_capture post_excess update_reservation release_reserved
    release_reserved_body release_locked release_active cancel_intent release_hold
settles = refl

settle-captures_example :
    IsWithin (reais 450) authorized_intent 9 site
    × IsCaptured calm charge (reais 450) driver 1 authorized_intent site (ok tt, settled)
settle-captures_example =
    settle-captures calm quiet charge (reais 450) driver 1 authorized_intent site refl
      session_payment.0 session_payment.1 refl settles

cancels : cancel calm 50 driver 1 site ≡ (ok tt, released)
unfolding credit credit_body serializable_transaction lock_active_wallet find_owned
    same_wallet_owner wallet_accounts account same_account_key post update_wallet
    record_wallet_event current_dto matches_currency post_new assert_balanced check_accounts
    create_pending breaks_constraints reserve reserve_body reserve_locked reserve_new
    same_reservation_key insert_reservation same_transaction_key pending_row ◌-ℤ◌ settle cancel
    session_intent settle_intent settle_authorized exceeds capture_intent ◌>>=◌ find_config
    find_session_intent is_session_intent find_session_reservation on_wallet on_intents transition
    write_status update_intent breaks_intent_check record_change moved_to_status find_intent
    assert_payment_intent_transition capture_reserved capture_reserved_body lock_reservation
    capture_locked capture_active post_capture post_excess update_reservation release_reserved
    release_reserved_body release_locked release_active cancel_intent release_hold
cancels = refl

cancel-closes_example :
    HoldReleased calm 50 driver 1 site.wallet released.wallet
    × PaymentClosed authorized_intent site.intents released.intents
cancel-closes_example =
    cancel-closes calm quiet 50 driver 1 authorized_intent site refl session_payment.0
      session_payment.1 cancels
