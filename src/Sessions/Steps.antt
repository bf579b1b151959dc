-- ===== src/Sessions/Steps.antt =====
-- The transactions of the charging service as steps, and the sequences of steps that calls leave.
use ev_charge_platform.Prelude.{ℕ, ℤ, ◌≡◌, Bool, Option, ok, String}
use ev_charge_platform.Database.{AuthUser, SessionStatus}
use ev_charge_platform.Sessions.Tariffs.{Doubles}
use ev_charge_platform.Sessions.Rows.{ChargingSession, ChargingDb}
use ev_charge_platform.Sessions.Statements.{no_change, transition}
use ev_charge_platform.Sessions.Creation.{CreateChargingSession, create_body}
use ev_charge_platform.Sessions.Progress.{
  Prepared, StartChargeResult, authorize_body, prepare_start, activate, prepare_stop, complete_body,
}
use ev_charge_platform.Sessions.Metering.{Sample, sample_body}
use ev_charge_platform.Sessions.Endings.{disconnect_body, fail_body}

module _ {D : Type 0} ⦃f : Doubles D⦄ where
  -- A transaction that commits.
  pub data Step : ChargingDb D → ChargingDb D → Type 0 where
    created :
        {db db' : ChargingDb D} {s : ChargingSession D} (input : CreateChargingSession)
        (user : AuthUser) (key : String) (correlation now : ℕ)
        → create_body input user key correlation now db ≡ ok (s, db')
        → Step db db'
    authorized :
        {db db' : ChargingDb D} {s : ChargingSession D} (id : ℕ) (user : AuthUser) (correlation : ℕ)
        → authorize_body id user correlation db ≡ ok (s, db')
        → Step db db'
    prepared_start :
        {db db' : ChargingDb D} {p : Prepared D} (id : ℕ) (user : AuthUser) (correlation : ℕ)
        → prepare_start id user correlation db ≡ ok (p, db')
        → Step db db'
    activated :
        {db db' : ChargingDb D} {s : ChargingSession D} (id : ℕ) (user : AuthUser) (correlation : ℕ)
        (accepted : StartChargeResult D) (now : ℕ)
        → activate id user correlation accepted now db ≡ ok (s, db')
        → Step db db'
    prepared_stop :
        {db db' : ChargingDb D} {p : Prepared D} (id : ℕ) (user : AuthUser) (correlation : ℕ)
        → prepare_stop id user correlation db ≡ ok (p, db')
        → Step db db'
    reported_stop :
        {db db' : ChargingDb D} {s : ChargingSession D} (known : ChargingSession D)
        (user : AuthUser) (correlation : ℕ)
        → transition known SessionStatus.stopping user correlation no_change db ≡ ok (s, db')
        → Step db db'
    completed :
        {db db' : ChargingDb D} {s : ChargingSession D} (id : ℕ) (user : AuthUser) (correlation : ℕ)
        (meter_stop : ℤ) (now : ℕ)
        → complete_body id user correlation meter_stop now db ≡ ok (s, db')
        → Step db db'
    sampled :
        {db db' : ChargingDb D} {o : Option (ChargingSession D)} (id : ℕ) (sample : Sample D)
        → sample_body id sample db ≡ ok (o, db')
        → Step db db'
    disconnected :
        {db db' : ChargingDb D} {s : ChargingSession D} (id : ℕ) (user : AuthUser) (correlation : ℕ)
        (reason : String)
        → disconnect_body id user correlation reason db ≡ ok (s, db')
        → Step db db'
    failed :
        {db db' : ChargingDb D} {s : ChargingSession D} (id : ℕ) (user : AuthUser) (correlation : ℕ)
        (reason : String) (lost : Bool) (now : ℕ)
        → fail_body id user correlation reason lost now db ≡ ok (s, db')
        → Step db db'

  -- Any number of them, in any order.
  pub data Reaches : ChargingDb D → ChargingDb D → Type 0 where
    unmoved : (db : ChargingDb D) → Reaches db db
    further : {db db' db'' : ChargingDb D} → Step db db' → Reaches db' db'' → Reaches db db''

  pub Reaches-through : {a b c : ChargingDb D} → Reaches a b → Reaches b c → Reaches a c
  Reaches-through (unmoved _) r = r
  Reaches-through (further s q) r = further s (Reaches-through q r)
