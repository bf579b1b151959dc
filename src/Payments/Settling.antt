-- ===== src/Payments/Settling.antt =====
-- charging-payment.policy.ts: `settle` and `cancel`, and the policy as the charging service takes it.
use Prim.Native.String.{◌++◌}
use ev_charge_platform.Prelude.{
  ℕ, ltb_ℤ, ℕ_eq, ◌==◌, Bool, false, ◌||◌, Option, none, some, Action, not_found,
  payment_not_authorized, capture_exceeds_authorization, if◌then◌else◌,
}
use ev_charge_platform.Prelude.Methods.{returns, throws, reads, calls, meanwhile, ◌>>=◌, ◌>>◌}
use ev_charge_platform.Money.{Money}
use ev_charge_platform.Database.{
  AuthUser, IntentStatus, IntentStatus_eq, ReservationStatus, ReservationStatus_eq,
  WalletReservation,
}
use ev_charge_platform.Wallet.Settlement.{capture_reserved, release_reserved}
use ev_charge_platform.Intents.Service.{PaymentIntent}
use ev_charge_platform.Sessions.Platform.{ChargingFinancialContext, PaymentPolicy}
use ev_charge_platform.Payments.Policy.{
  PaymentPolicyConfig, PaymentsDb, Surroundings, on_wallet, or_failure, find_session_intent,
  find_session_reservation, assert_mock_mode, is_disabled,
}
use ev_charge_platform.Payments.Charging.{
  operation_for, no_money, read_config, move_intent, authorize,
}

module _ (env : Surroundings) where
  -- `sessionIntent`
  unfoldable pub session_intent : ℕ → AuthUser → Action PaymentsDb PaymentIntent
  unfolding find_session_intent
  session_intent session user = do
    found ← reads λ s. find_session_intent session user s.intents.intents
    calls (or_failure not_found found)

  -- The final amount against what was authorized and what the tenant allows for one session.
  unfoldable pub exceeds : Money → PaymentIntent → PaymentPolicyConfig → Bool
  exceeds amount intent config =
      ltb_ℤ intent.authorized_amount_minor amount.amount_minor
      || ltb_ℤ config.maximum_session_amount_minor amount.amount_minor

  unfoldable pub capture_intent :
      PaymentIntent → ChargingFinancialContext → Money → AuthUser → ℕ → Action PaymentsDb (Unit {0})
  capture_intent intent context amount user correlation = do
    found ← reads λ s. find_session_reservation context.charging_session_id s.wallet.reservations
    reservation ← calls (or_failure not_found found)
    _ ← on_wallet (
        capture_reserved env.hash env.aborts reservation.id (
          operation_for user correlation
            ("charging-settlement:" ++ env.number_text context.charging_session_id) amount none
            none))
    meanwhile (env.others 1)
    captured ←
        move_intent env intent.id IntentStatus.captured user none (some amount.amount_minor) none
    meanwhile (env.others 2)
    env.issue_receipt context.charging_session_id captured.id amount user correlation
    env.evaluate_auto_recharge user correlation

  -- An intent that is authorized: its capture, or its review where the amount is too large.
  unfoldable pub settle_authorized :
      PaymentIntent → ChargingFinancialContext → Money → AuthUser → ℕ → Action PaymentsDb (Unit {0})
  unfolding exceeds capture_intent
  settle_authorized intent context amount user correlation = do
    config ← read_config env user.tenant_id amount.currency
    if exceeds amount intent config
        then (do
          _ ← move_intent env intent.id IntentStatus.requires_review user none none none
          throws capture_exceeds_authorization)
        else capture_intent intent context amount user correlation

  unfoldable pub settle_intent :
      PaymentIntent → ChargingFinancialContext → Money → AuthUser → ℕ → Action PaymentsDb (Unit {0})
  unfolding settle_authorized
  settle_intent intent context amount user correlation =
      if intent.status == IntentStatus.captured
      then env.issue_receipt context.charging_session_id intent.id amount user correlation
      else if intent.status == IntentStatus.authorized
      then settle_authorized intent context amount user correlation
      else throws payment_not_authorized

  unfoldable pub settle :
      ChargingFinancialContext → Money → AuthUser → ℕ → Action PaymentsDb (Unit {0})
  unfolding session_intent settle_intent
  settle context amount user correlation = if is_disabled env.mode then returns tt else (do
    calls (assert_mock_mode env.mode)
    intent ← session_intent context.charging_session_id user
    meanwhile (env.others 0)
    settle_intent intent context amount user correlation)

  abbrev pub is_reserved : Option WalletReservation → Bool
  is_reserved none = false
  is_reserved (some r) = r.status == ReservationStatus.reserved

  abbrev pub number_of : Option WalletReservation → ℕ
  number_of none = 0
  number_of (some r) = r.id

  -- `if (reservation && reservation.status === RESERVED) await wallet.releaseReserved(...)`
  unfoldable pub release_hold :
      Option WalletReservation → ℕ → AuthUser → ℕ → Action PaymentsDb (Unit {0})
  release_hold found session user correlation =
      if is_reserved found
      then (do
        _ ← on_wallet (
            release_reserved env.hash env.aborts (number_of found) (
              operation_for user correlation ("charging-cancel:" ++ env.number_text session)
                no_money none none))
        returns tt)
      else returns tt

  abbrev pub is_open : PaymentIntent → Bool
  is_open i =
      i.status == IntentStatus.created
      || i.status == IntentStatus.pending
      || i.status == IntentStatus.authorized

  unfoldable pub cancel_intent :
      Option PaymentIntent → ℕ → AuthUser → ℕ → Action PaymentsDb (Unit {0})
  unfolding find_session_reservation release_hold
  cancel_intent none session user correlation = returns tt
  cancel_intent (some intent) session user correlation = do
    found ← reads λ s. find_session_reservation session s.wallet.reservations
    release_hold found session user correlation
    meanwhile (env.others 1)
    if is_open intent
        then (do
          _ ← move_intent env intent.id IntentStatus.cancelled user none none none
          returns tt)
        else returns tt

  unfoldable pub cancel : ℕ → AuthUser → ℕ → Action PaymentsDb (Unit {0})
  unfolding cancel_intent
  cancel session user correlation = if is_disabled env.mode then returns tt else (do
    calls (assert_mock_mode env.mode)
    found ← reads λ s. find_session_intent session user s.intents.intents
    meanwhile (env.others 0)
    cancel_intent found session user correlation)

  -- What the charging service calls.
  abbrev pub charging_payment_policy : PaymentPolicy PaymentsDb
  charging_payment_policy = record {
    authorize = λ context user key correlation. do
      _ ← authorize env context user key correlation
      returns tt;
    settle = settle;
    cancel = cancel;
  }
