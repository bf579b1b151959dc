-- ===== src/Payments/Limits.antt =====
-- How much a settlement may capture.
use ev_charge_platform.Prelude.{
  ℕ, ◌≤ℤ◌, ◌≡◌, ap, inl, inr, ℕ_eq, false, none, some, Result, ok, arith, payment_policy_missing,
}
use ev_charge_platform.Prelude.Methods.{bind-eq-ok, branch-taken}
use ev_charge_platform.Money.{Money}
use ev_charge_platform.Database.{AuthUser, IntentStatus, IntentStatus_eq}
use ev_charge_platform.Intents.Service.{PaymentIntent}
use ev_charge_platform.Sessions.Platform.{ChargingFinancialContext}
use ev_charge_platform.Payments.Policy.{PaymentPolicyConfig, PaymentsDb, Surroundings, find_config}
use ev_charge_platform.Payments.Calls.{required}
use ev_charge_platform.Payments.Charging.{read_config, move_intent}
use ev_charge_platform.Payments.Settling.{exceeds, settle_authorized}

-- The amount is within what was authorized and what the tenant allows for one session.
pub record IsWithin (amount : Money) (intent : PaymentIntent) (tenant : ℕ) (s : PaymentsDb)
    : Type 0 where
  pub config : PaymentPolicyConfig
  pub found : find_config tenant amount.currency s.configs ≡ some config
  pub authorized : amount.amount_minor ≤ℤ intent.authorized_amount_minor
  pub allowed : amount.amount_minor ≤ℤ config.maximum_session_amount_minor

module _ (env : Surroundings) where
  within :
      (amount : Money) (intent : PaymentIntent) (config : PaymentPolicyConfig)
      → exceeds env amount intent config ≡ false
      → (amount.amount_minor ≤ℤ intent.authorized_amount_minor)
        × (amount.amount_minor ≤ℤ config.maximum_session_amount_minor)
  unfolding exceeds
  within amount intent config h = ground arith

  pub read_config-eq-ok :
      (tenant : ℕ) (amount : Money) (s : PaymentsDb) {c : PaymentPolicyConfig} {t : PaymentsDb}
      → read_config env tenant amount.currency s ≡ (ok c, t)
      → (find_config tenant amount.currency s.configs ≡ some c) × (t ≡ s)
  read_config-eq-ok tenant amount s h =
      required payment_policy_missing (λ d. find_config tenant amount.currency d.configs) s h

  pub settle_authorized-IsWithin :
      (intent : PaymentIntent) (context : ChargingFinancialContext) (amount : Money)
      (user : AuthUser) (correlation : ℕ) (s : PaymentsDb) {u : Unit {0}} {t : PaymentsDb}
      → settle_authorized env intent context amount user correlation s ≡ (ok u, t)
      → IsWithin amount intent user.tenant_id s
  unfolding settle_authorized
  settle_authorized-IsWithin intent context amount user correlation s h =
      let (config, s1, read, rest) =
        bind-eq-ok (read_config env user.tenant_id amount.currency) _ s h in
      let (found, same) = read_config-eq-ok user.tenant_id amount s read in
      elim (branch-taken (exceeds env amount intent config) _ _ s1 rest) [
        | inl (large, reviewed) ↦
            let (moved, s2, e, thrown) =
              bind-eq-ok
                (move_intent env intent.id IntentStatus.requires_review user none none none) _ s1
                reviewed in
            cc (ap (λ (p : Result (Unit {0}) × PaymentsDb). p.0) thrown)
        | inr (fits, captured) ↦
            let (authorized, allowed) = within amount intent config fits in
            record { config = config; found = found; authorized = authorized; allowed = allowed }
      ]
