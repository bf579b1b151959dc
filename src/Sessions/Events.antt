-- ===== src/Sessions/Events.antt =====
-- charging.service.ts: `handleChargerEvent`.
use ev_charge_platform.Prelude.{
  ℕ, ℤ, String, Bool, true, false, Option, none, some, find, ℕ_eq, ◌==◌, ◌&&◌, Result, ok, err,
  Action, conflict, not_found, if◌then◌else◌,
}
use ev_charge_platform.Prelude.Methods.{returns, throws, reads, calls, meanwhile, ◌>>=◌, ◌>>◌}
use ev_charge_platform.Database.{AuthUser, SessionStatus, SessionStatus_eq}
use ev_charge_platform.Sessions.Tariffs.{Doubles}
use ev_charge_platform.Sessions.Rows.{ChargingSession, station_id_of, session_id_of}
use ev_charge_platform.Sessions.Statements.{no_change, transition}
use ev_charge_platform.Sessions.Metering.{
  ChargerEvent, ChargerEventType, Sample, read_meter, read_sample, sample_body,
}
use ev_charge_platform.Sessions.Endings.{disconnect_body}
use ev_charge_platform.Sessions.Platform.{System, PaymentPolicy, World, system_user, in_transaction}
use ev_charge_platform.Sessions.Service.{fail_session, complete_session}

abbrev pub or_not_found {ℓ} : {A : Type ℓ} → Option A → Result A
or_not_found none = err not_found
or_not_found (some a) = ok a

-- `input.reason ?? ...`
abbrev pub reason_of : {D : Type 0} → ChargerEvent D → String
reason_of input = elim input.reason [
  | some reason ↦ reason
  | none ↦ elim input.event_type [
    | ChargerEventType.disconnected ↦ "Charger disconnected."
    | _ ↦ "Simulated charger failure."
  ]
]

abbrev pub is_disconnection : ChargerEventType → Bool
is_disconnection ChargerEventType.disconnected = true
is_disconnection _ = false

module _ {D P : Type 0} ⦃f : Doubles D⦄ (policy : PaymentPolicy P) (big_int : String → Option ℤ)
    (world : World D P) where
  abbrev pub take_sample : Option (Sample D) → ℕ → Action (System D P) (Unit {0})
  take_sample none id = returns tt
  take_sample (some sample) id = do _ ← in_transaction (sample_body id sample); returns tt

  unfoldable pub record_meter_value :
      ChargingSession D → ChargerEvent D → Action (System D P) (Unit {0})
  record_meter_value known input = do
    sample ← calls (read_sample big_int known input)
    meanwhile (world.others 0)
    take_sample sample known.id

  -- A session that is charging is moved to STOPPING as it was read.
  abbrev pub begin_stop : ChargingSession D → AuthUser → ℕ → Action (System D P) (Unit {0})
  begin_stop session user correlation =
      if session.status == SessionStatus.charging
      then (do
        meanwhile (world.others 0)
        _ ← in_transaction (transition session SessionStatus.stopping user correlation no_change)
        returns tt)
      else if session.status == SessionStatus.stopping
      then returns tt
      else throws conflict

  unfoldable pub stop_reported :
      ChargingSession D → AuthUser → ChargerEvent D → ℕ → Action (System D P) (Unit {0})
  stop_reported session user input correlation = do
    meter_stop ← calls (read_meter big_int input.meter_wh)
    if session.status == SessionStatus.completed then returns tt else (do
      begin_stop session user correlation
      meanwhile (world.others 1)
      _ ← complete_session policy world session.id user correlation meter_stop
      returns tt)

  unfoldable pub report_failure :
      ChargingSession D → AuthUser → ChargerEvent D → ℕ → Action (System D P) (Unit {0})
  report_failure session user input correlation = do
    meanwhile (world.others 0)
    if is_disconnection input.event_type && input.recoverable
        then (do
          _ ← in_transaction (disconnect_body session.id user correlation (reason_of input))
          returns tt)
        else (do
          _ ←
              fail_session policy world session.id user correlation (reason_of input)
                (is_disconnection input.event_type)
          returns tt)

  unfoldable pub handle_for :
      ChargerEventType
      → ChargingSession D
      → AuthUser
      → ChargerEvent D
      → ℕ
      → Action (System D P) (Unit {0})
  handle_for ChargerEventType.meter_value session user input correlation =
      record_meter_value session input
  handle_for ChargerEventType.stopped session user input correlation =
      stop_reported session user input correlation
  handle_for ChargerEventType.failed session user input correlation =
      report_failure session user input correlation
  handle_for ChargerEventType.disconnected session user input correlation =
      report_failure session user input correlation

  unfoldable pub handle_charger_event : ChargerEvent D → ℕ → Action (System D P) (Unit {0})
  handle_charger_event input correlation = do
    found ← reads λ s. find session_id_of input.session_id s.charging.sessions
    session ← calls (or_not_found found)
    site ← reads λ s. find station_id_of session.station_id s.charging.stations
    station ← calls (or_not_found site)
    handle_for input.event_type session (system_user session.user_id station.tenant_id) input
        correlation
