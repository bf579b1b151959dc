-- ===== src/Payments/Charging.antt =====
-- charging-payment.policy.ts: `authorize`, `settle` and `cancel`.
use Prim.Native.String.{◌++◌}
use ev_charge_platform.Prelude.{
  committed, ℕ, ℤ, pos, ℕ_eq, String, ◌==◌, false, ◌||◌, Option, none, some, find, Failure, Action,
  not_found, payment_policy_missing, if◌then◌else◌,
}
use ev_charge_platform.Prelude.Methods.{
  returns, throws, reads, calls, meanwhile, try_catch, ◌>>=◌, ◌>>◌,
}
use ev_charge_platform.Money.{Money, bigint, from_minor_units}
use ev_charge_platform.Database.{
  AuthUser, IntentStatus, IntentStatus_eq, IntentType, ReservationStatus_eq,
}
use ev_charge_platform.Wallet.{WalletOperation}
use ev_charge_platform.Wallet.Operations.{get_wallet}
use ev_charge_platform.Wallet.Reservations.{reserve}
use ev_charge_platform.Intents.Service.{PaymentIntent, intent_id_of, create_intent, transition}
use ev_charge_platform.Sessions.Platform.{ChargingFinancialContext}
use ev_charge_platform.Payments.Policy.{
  PaymentPolicyConfig, PaymentsDb, Surroundings, on_wallet, on_intents, or_failure, find_config,
  find_intent_reservation, unchanged_columns, Authorization, not_needed, authorized_before,
  authorized_now, assert_mock_mode, is_disabled,
}

-- A call of the wallet without money of its own, and with.
abbrev pub operation_for : AuthUser → ℕ → String → Money → Option ℕ → Option ℕ → WalletOperation
operation_for user correlation key money intent session = record {
  correlation_id = correlation;
  currency = none;
  idempotency_key = key;
  ledger_type = none;
  money = money;
  payment_intent_id = intent;
  charging_session_id = session;
  user = user;
}

-- The money of a call that takes none.
abbrev pub no_money : Money
no_money = record { amount_minor = pos 0; currency = "BRL"; maximum_amount_minor = pos 0 }

module _ (env : Surroundings) where
  -- `policy`
  abbrev pub read_config : ℕ → String → Action PaymentsDb PaymentPolicyConfig
  read_config tenant currency = do
    found ← reads λ s. find_config tenant currency s.configs
    calls (or_failure payment_policy_missing found)

  abbrev pub move_intent :
      ℕ → IntentStatus → AuthUser → Option ℤ → Option ℤ → Option ℕ → Action PaymentsDb PaymentIntent
  move_intent id target user authorized captured reference = on_intents (
      transition env.between id target user (record unchanged_columns {
        authorized_amount_minor = authorized;
        captured_amount_minor = captured;
        provider_reference = reference;
      }))

  -- `if (intent.status === CREATED) intent = await transition(PENDING)`
  abbrev pub opened : PaymentIntent → AuthUser → Action PaymentsDb PaymentIntent
  opened intent user =
      if intent.status == IntentStatus.created
      then move_intent intent.id IntentStatus.pending user none none none
      else returns intent

  abbrev pub hold :
      PaymentIntent
      → ChargingFinancialContext
      → AuthUser
      → String
      → Money
      → ℕ
      → Action PaymentsDb Authorization
  hold intent context user key money correlation = do
    meanwhile (env.others 1)
    reservation ← on_wallet (
        reserve env.hash env.aborts (
          operation_for user correlation key money (some intent.id)
            (some context.charging_session_id)))
    meanwhile (env.others 2)
    moved ←
        move_intent intent.id IntentStatus.authorized user (some money.amount_minor) none
          (some (env.reference_of reservation.id))
    returns (authorized_now moved.authorized_amount_minor moved.id reservation.id)

  abbrev pub fail_pending : PaymentIntent → AuthUser → Failure → Action PaymentsDb Authorization
  fail_pending latest user error =
      if latest.status == IntentStatus.pending
      then (move_intent latest.id IntentStatus.failed user none none none >>= λ _. throws error)
      else throws error

  abbrev pub held_before : PaymentIntent → Action PaymentsDb Authorization
  held_before latest = do
    found ← reads λ s. find_intent_reservation latest.id s.wallet.reservations
    reservation ← calls (or_failure not_found found)
    returns (authorized_now latest.authorized_amount_minor latest.id reservation.id)

  abbrev pub recover : Option PaymentIntent → AuthUser → Failure → Action PaymentsDb Authorization
  recover none user error = throws error
  recover (some latest) user error =
      if latest.status == IntentStatus.authorized
      then held_before latest
      else fail_pending latest user error

  abbrev pub authorize_intent :
      PaymentIntent
      → ChargingFinancialContext
      → AuthUser
      → String
      → Money
      → ℕ
      → Action PaymentsDb Authorization
  authorize_intent created context user key money correlation =
      if created.status == IntentStatus.authorized || created.status == IntentStatus.captured
      then returns (authorized_before created.id)
      else (do
        intent ← opened created user
        try_catch (hold intent context user key money correlation) λ error. do
          meanwhile (env.others 3)
          latest ← reads λ s. find intent_id_of intent.id s.intents.intents
          recover latest user error)

  unfoldable pub authorize :
      ChargingFinancialContext → AuthUser → String → ℕ → Action PaymentsDb Authorization
  authorize context user idempotency_key correlation =
      if is_disabled env.mode then returns not_needed else (do
        calls (assert_mock_mode env.mode)
        config ← read_config user.tenant_id context.currency
        money ← calls (
            from_minor_units (bigint config.pre_authorization_amount_minor) context.currency
              (record {
                allow_negative = false;
                maximum_amount_minor = some env.maximum_money_minor;
              }))
        _ ← on_wallet (λ db. committed db (get_wallet user context.currency db))
        let key =
            "charging-authorization:"
            ++ env.number_text context.charging_session_id
            ++ ":"
            ++ idempotency_key
        created ← on_intents (
            create_intent env.intent_hash env.between
              (record {
                charging_session_id = some context.charging_session_id;
                idempotency_key = key;
                money = money;
                provider = "solis-wallet";
                provider_reference = none;
                intent_type = IntentType.charging_authorization;
              })
              user)
        meanwhile (env.others 0)
        authorize_intent created context user key money correlation)
