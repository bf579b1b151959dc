-- ===== src/Sessions/Platform.antt =====
-- The charging tables beside the payments, and what a method of the charging service calls.
use ev_charge_platform.Prelude.{
  ℕ, ℤ, String, true, Failure, Result, Tx, Action, committed, unique_violation,
  serialization_failure, active_session_exists,
}
use ev_charge_platform.Money.{Money}
use ev_charge_platform.Database.{AuthUser}
use ev_charge_platform.Sessions.Rows.{ChargingSession, ChargingDb}
use ev_charge_platform.Sessions.Progress.{StartChargeResult}

-- The tables of the charging service beside the state of the payments.
pub record System (D P : Type 0) : Type 0 where
  pub charging : ChargingDb D
  pub payments : P

-- `ChargingFinancialContext`
pub record ChargingFinancialContext : Type 0 where
  pub charging_session_id : ℕ
  pub currency : String

-- The methods of `ChargingPaymentPolicy`.
pub record PaymentPolicy (P : Type 0) : Type 0 where
  pub authorize : ChargingFinancialContext → AuthUser → String → ℕ → Action P (Unit {0})
  pub settle : ChargingFinancialContext → Money → AuthUser → ℕ → Action P (Unit {0})
  pub cancel : ℕ → AuthUser → ℕ → Action P (Unit {0})

-- `ChargerGateway`: what the charger answers.
pub record ChargerGateway (D : Type 0) : Type 0 where
  pub register_connector : ChargingSession D → Result (Unit {0})
  pub start : ChargingSession D → Result (StartChargeResult D)
  pub stop : ℕ → Result ℤ

-- What happens around one call of a method: what other calls do between its transactions, the
-- clock at each of its readings, `environment.maximumMoneyMinor`, and the message of an exception.
pub record World (D P : Type 0) : Type 0 where
  pub others : ℕ → System D P → System D P
  pub clock : ℕ → ℕ
  pub maximum_money_minor : ℤ
  pub message : Failure → String

-- Prisma's codes P2002 and P2034.
abbrev pub creation_failure : Failure → Failure
creation_failure unique_violation = active_session_exists
creation_failure serialization_failure = active_session_exists
creation_failure x = x

abbrev pub system_user : ℕ → ℕ → AuthUser
system_user user tenant = record { sub = user; tenant_id = tenant; is_system = true }

module _ {D P A : Type 0} where
  abbrev pub beside : P → Result A × ChargingDb D → Result A × System D P
  beside p (r, db) = (r, record { charging = db; payments = p })

  abbrev pub behind : ChargingDb D → Result A × P → Result A × System D P
  behind db (r, p) = (r, record { charging = db; payments = p })

  -- `prisma.$transaction`
  unfoldable pub in_transaction : Tx (ChargingDb D) A → Action (System D P) A
  in_transaction body s = beside s.payments (committed s.charging (body s.charging))

  -- A call of the payment policy.
  unfoldable pub paying : Action P A → Action (System D P) A
  paying call s = behind s.charging (call s.payments)
