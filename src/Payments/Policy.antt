-- ===== src/Payments/Policy.antt =====
-- charging-payment.policy.ts: a session's payment is authorized as a reservation in the wallet,
-- captured when the session is completed, and released when it fails.
use ev_charge_platform.Prelude.{
  ℕ, ℤ, nat_eq, ℕ_eq, String, ◌==◌, String_eq, Bool, true, false, not, ◌&&◌, Option, none, some,
  List, [], ◌∷◌, Failure, Result, ok, err, Action, payments_mode_unavailable, if◌then◌else◌,
}
use ev_charge_platform.Money.{Money}
use ev_charge_platform.Database.{
  AuthUser, IntentStatus_eq, IntentType, IntentType_eq, ReservationStatus_eq, WalletReservation, Db,
}
use ev_charge_platform.Ledger.{HashedRequest}
use ev_charge_platform.Wallet.{Interference}
use ev_charge_platform.Wallet.Reservations.{same_reference}
use ev_charge_platform.Intents.Service.{PaymentIntent, IntentDb, HashedIntent, IntentChange}

pub record PaymentPolicyConfig : Type 0 where
  pub tenant_id : ℕ
  pub currency : String
  pub pre_authorization_amount_minor : ℤ
  pub maximum_session_amount_minor : ℤ

-- The tables of the payments; the two parts have audit logs and outboxes of their own.
pub record PaymentsDb : Type 0 where
  pub wallet : Db
  pub intents : IntentDb
  pub configs : List PaymentPolicyConfig

-- `environment.paymentsMode`
pub data PaymentsMode : Type 0 where
  disabled mock sandbox production : PaymentsMode

-- What surrounds a call: the mode and the largest amount of the environment, the text of a number
-- of a row, the hashes of requests, the attempts that the database aborts, what others do to the
-- tables between two steps of the method and within a change of an intent, and the two services
-- that a settlement calls at its end.
pub record Surroundings : Type 0 where
  pub mode : PaymentsMode
  pub maximum_money_minor : ℤ
  pub number_text : ℕ → String
  pub hash : HashedRequest → ℕ
  pub intent_hash : HashedIntent → ℕ
  pub reference_of : ℕ → ℕ
  pub aborts : Interference
  pub others : ℕ → PaymentsDb → PaymentsDb
  pub between : ℕ → IntentDb → IntentDb
  pub issue_receipt : ℕ → ℕ → Money → AuthUser → ℕ → Action PaymentsDb (Unit {0})
  pub evaluate_auto_recharge : AuthUser → ℕ → Action PaymentsDb (Unit {0})

module _ {A : Type 0} where
  abbrev pub with_wallet : PaymentsDb → Result A × Db → Result A × PaymentsDb
  with_wallet s (r, db) = (r, record s { wallet = db })

  abbrev pub with_intents : PaymentsDb → Result A × IntentDb → Result A × PaymentsDb
  with_intents s (r, db) = (r, record s { intents = db })

  -- A method of the wallet service, and one of the service of payment intents.
  unfoldable pub on_wallet : Action Db A → Action PaymentsDb A
  on_wallet call s = with_wallet s (call s.wallet)

  unfoldable pub on_intents : Action IntentDb A → Action PaymentsDb A
  on_intents call s = with_intents s (call s.intents)

abbrev pub or_failure {ℓ} : {A : Type ℓ} → Failure → Option A → Result A
or_failure x none = err x
or_failure x (some a) = ok a

-- `policy`
unfoldable pub find_config : ℕ → String → List PaymentPolicyConfig → Option PaymentPolicyConfig
find_config tenant currency [] = none
find_config tenant currency (c ∷ cs) =
    if nat_eq c.tenant_id tenant && c.currency == currency
    then some c
    else find_config tenant currency cs

-- `paymentIntent.findFirst` of `sessionIntent` and of `cancel`.
unfoldable pub is_session_intent : ℕ → AuthUser → PaymentIntent → Bool
is_session_intent session user i =
    same_reference i.charging_session_id (some session)
    && not i.deleted
    && nat_eq i.key.tenant_id user.tenant_id
    && i.intent_type == IntentType.charging_authorization
    && nat_eq i.user_id user.sub

unfoldable pub find_session_intent : ℕ → AuthUser → List PaymentIntent → Option PaymentIntent
unfolding is_session_intent
find_session_intent session user [] = none
find_session_intent session user (i ∷ is) =
    if is_session_intent session user i then some i else find_session_intent session user is

-- `walletReservation.findUnique` by a session and by an intent.
unfoldable pub find_session_reservation : ℕ → List WalletReservation → Option WalletReservation
find_session_reservation session [] = none
find_session_reservation session (r ∷ rs) =
    if same_reference r.charging_session_id (some session)
    then some r
    else find_session_reservation session rs

unfoldable pub find_intent_reservation : ℕ → List WalletReservation → Option WalletReservation
find_intent_reservation intent [] = none
find_intent_reservation intent (r ∷ rs) =
    if same_reference r.payment_intent_id (some intent)
    then some r
    else find_intent_reservation intent rs

abbrev pub unchanged_columns : IntentChange
unchanged_columns = record {
  authorized_amount_minor = none;
  captured_amount_minor = none;
  provider_reference = none;
  refunded_amount_minor = none;
}

-- What `authorize` returns: the mode, the amount and the numbers of the intent and the reservation.
pub data Authorization : Type 0 where
  not_needed : Authorization
  authorized_before : ℕ → Authorization
  authorized_now : ℤ → ℕ → ℕ → Authorization

-- `assertMockMode`
abbrev pub assert_mock_mode : PaymentsMode → Result (Unit {0})
assert_mock_mode PaymentsMode.mock = ok tt
assert_mock_mode _ = err payments_mode_unavailable

abbrev pub is_disabled : PaymentsMode → Bool
is_disabled PaymentsMode.disabled = true
is_disabled _ = false
