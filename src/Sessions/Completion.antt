-- ===== src/Sessions/Completion.antt =====
-- A session that is stopping can be completed, whatever meter the charger reports.
use ev_charge_platform.Prelude.{
  ℕ, ℤ, pos, ◌-ℤ◌, ◌≤ℤ◌, ◌≡◌, refl, ◌∙◌, ap, nat_eq_iff, ℕ_eq, true, false, not, Option, none, some,
  ◌∷◌, find, update, found-before, ◌==◌, ok, throw_if, conflict, >>=-runs, else-runs, arith,
}
use ev_charge_platform.Database.{
  AuthUser, SessionStatus, SessionStatus_eq, same_session_status_iff, ConnectorStatus,
}
use ev_charge_platform.Charging.{assert_charging_session_transition}
use ev_charge_platform.Sessions.Tariffs.{Doubles, whole}
use ev_charge_platform.Sessions.Rows.{
  Connector, ChargingSession, UserTotals, ChargingDb, connector_id_of, session_id_of, user_id_of,
}
use ev_charge_platform.Sessions.Presenter.{default_to, read_tariff_snapshot}
use ev_charge_platform.Sessions.Statements.{
  SessionChange, falls, with_connector_status, set_connector_status, write_audit, publish,
  state_audit, state_event, unchanged_since, breaks_session_check, stored_change, changed_session,
  update_session, move_session, transition,
}
use ev_charge_platform.Sessions.Progress.{
  normalized_stop, energy_between, completion, read_session, add_energy, add_to_totals,
  complete_stopping, complete_body,
}
use ev_charge_platform.Sessions.Demands.{CanComplete}
use ev_charge_platform.Sessions.Prices.{
  IsLawful, number_field-finite, calculate_charging_price-floor,
}

normalized_stop-falls :
    (start : Option ℤ) (meter : ℤ)
    → falls start (some (normalized_stop (default_to meter start) meter)) ≡ false
unfolding normalized_stop
normalized_stop-falls none meter = refl
normalized_stop-falls (some s) meter = ground arith

stop-difference : (start meter : ℤ) → pos 0 ≤ℤ normalized_stop start meter -ℤ start
unfolding normalized_stop ◌-ℤ◌
stop-difference start meter = ground arith

stopping_accepts :
    assert_charging_session_transition SessionStatus.stopping SessionStatus.completed ≡ ok tt
unfolding assert_charging_session_transition
stopping_accepts = refl

module _ {D : Type 0} ⦃f : Doubles D⦄ (laws : IsLawful D) where
  energy_between-floor :
      (start meter : ℤ)
      → f.at_most (whole 0) (energy_between start (normalized_stop start meter)) ≡ true
  unfolding energy_between
  energy_between-floor start meter =
      laws.divide_floor _ 999 (omega arith) (laws.integer_floor _ (stop-difference start meter))

  module _ (s : ChargingSession D) (u : UserTotals D) (meter : ℤ) (now : ℕ)
      (can : CanComplete s u meter now) where
    abbrev pub stored_completion : SessionChange D
    stored_completion = record {
      completed_at = some now;
      current_power_kw = some can.no_power;
      energy_kwh = some can.energy;
      estimated_cost = some can.price;
      failure_reason = none;
      meter_start_wh = none;
      meter_stop_wh = some (normalized_stop (default_to meter s.meter_start_wh) meter);
      started_at = none;
      stopped_at = some (some now);
      total_amount = some can.price;
    }

    completion-stored : stored_change (completion s meter now) ≡ ok stored_completion
    unfolding stored_change completion
    completion-stored = rw (can.no_power_fits, can.energy_fits, can.price_fits) refl

    energy_number : f.at_most (whole 0) can.energy ≡ true
    energy_number =
        laws.column_floor 12 3 _ _ can.energy_fits
          (energy_between-floor (default_to meter s.meter_start_wh) meter)

    parking_finite : f.is_finite (read_tariff_snapshot s.tariff_snapshot).parking_fee_hour ≡ true
    unfolding read_tariff_snapshot
    parking_finite = number_field-finite laws s.tariff_snapshot.parking_fee_hour 0 (omega arith)

    price_finite : f.is_finite (read_tariff_snapshot s.tariff_snapshot).price_per_kwh ≡ true
    unfolding read_tariff_snapshot
    price_finite = number_field-finite laws s.tariff_snapshot.price_per_kwh 0 (omega arith)

    price_number : f.at_most (whole 0) can.price ≡ true
    price_number =
        laws.column_floor 12 2 _ _ can.price_fits
          (calculate_charging_price-floor laws _ _ (read_tariff_snapshot s.tariff_snapshot)
            (laws.column_finite 12 3 _ _ can.energy_fits
              (energy_between-floor (default_to meter s.meter_start_wh) meter))
            can.duration_finite parking_finite price_finite can.activation_floor can.parking_floor
            can.price_floor).3

    completion-passes :
        breaks_session_check (changed_session SessionStatus.completed stored_completion s) ≡ false
    unfolding breaks_session_check changed_session
    completion-passes =
        rw (energy_number, price_number, normalized_stop-falls s.meter_start_wh meter, can.in_order)
          (ground arith)

    abbrev done : ChargingSession D
    done = changed_session SessionStatus.completed stored_completion s

    stands : unchanged_since s s ≡ true
    stands =
        ground (arith, same_session_status_iff s.status s.status, nat_eq_iff s.version s.version)

    abbrev written : ChargingDb D → ChargingDb D
    written db = record db {
      sessions =
          update session_id_of s.id (changed_session SessionStatus.completed stored_completion)
            db.sessions;
    }

    session-completes :
        (db : ChargingDb D)
        → find session_id_of s.id db.sessions ≡ some s
        → update_session s SessionStatus.completed (completion s meter now) db
          ≡ ok (some done, written db)
    unfolding update_session
    session-completes db found =
        rw (update_session, found, stands, completion-stored, completion-passes) refl

    abbrev recorded : AuthUser → ℕ → ChargingDb D → ChargingDb D
    recorded user correlation db = record (written db) {
      audit_log = state_audit s.id user correlation ∷ db.audit_log;
      outbox = state_event s.id user ∷ db.outbox;
    }

    move-completes :
        (user : AuthUser) (correlation : ℕ) (db : ChargingDb D)
        → find session_id_of s.id db.sessions ≡ some s
        → move_session s SessionStatus.completed user correlation (completion s meter now) db
          ≡ ok (done, recorded user correlation db)
    unfolding move_session write_audit publish
    move-completes user correlation db found =
        >>=-runs (update_session s SessionStatus.completed (completion s meter now)) _ db
          (session-completes db found) refl

    elsewhere : s.status ≡ SessionStatus.stopping → (s.status == SessionStatus.completed) ≡ false
    elsewhere stopping = rw stopping refl

    transition-completes :
        (user : AuthUser) (correlation : ℕ) (db : ChargingDb D)
        → s.status ≡ SessionStatus.stopping
        → find session_id_of s.id db.sessions ≡ some s
        → transition s SessionStatus.completed user correlation (completion s meter now) db
          ≡ ok (done, recorded user correlation db)
    unfolding transition
    transition-completes user correlation db stopping found =
        let accepted : assert_charging_session_transition s.status SessionStatus.completed ≡ ok tt =
          rw stopping stopping_accepts in
        rw (transition, accepted, elsewhere stopping, move-completes user correlation db found) refl

    totals_complete :
        (db : ChargingDb D)
        → find user_id_of s.user_id db.users ≡ some u
        → (db' : ChargingDb D) × (add_to_totals s.user_id
              (energy_between
                (default_to meter s.meter_start_wh)
                (normalized_stop (default_to meter s.meter_start_wh) meter))
              db
            ≡ ok (tt, db'))
          × (db'.connectors ≡ db.connectors)
    unfolding add_to_totals
    totals_complete db known = (
      record db { users = update user_id_of s.user_id (add_energy can.co2 can.total) db.users },
      rw (add_to_totals, known, can.co2_fits, can.total_fits) refl,
      refl,
    )

    abbrev switched : ChargingDb D → ChargingDb D
    switched db = record db {
      connectors =
          update connector_id_of s.connector_id (with_connector_status ConnectorStatus.available)
            db.connectors;
    }

    stopping-completes :
        (user : AuthUser) (correlation : ℕ) (db : ChargingDb D) (c : Connector D)
        → s.status ≡ SessionStatus.stopping
        → find session_id_of s.id db.sessions ≡ some s
        → find connector_id_of s.connector_id db.connectors ≡ some c
        → find user_id_of s.user_id db.users ≡ some u
        → (db' : ChargingDb D) × (complete_stopping s user correlation meter now db
            ≡ ok (done, db'))
          × (db'.connectors ≡ (switched db).connectors)
    unfolding complete_stopping set_connector_status
    stopping-completes user correlation db c stopping found connected known =
        let (db', run, same) = totals_complete (recorded user correlation (switched db)) known in
        let there : (s.status == SessionStatus.stopping) ≡ true = rw stopping refl in
        (
          db',
          >>=-runs (throw_if (not (s.status == SessionStatus.stopping)) conflict) _ db
              (rw there refl)
              (>>=-runs (set_connector_status s.connector_id ConnectorStatus.available) _ db
                (rw (set_connector_status, connected) refl)
                (>>=-runs
                  (transition s SessionStatus.completed user correlation (completion s meter now)) _
                  (switched db) (transition-completes user correlation (switched db) stopping found)
                  (>>=-runs
                    (add_to_totals s.user_id (
                      energy_between (default_to meter s.meter_start_wh)
                        (normalized_stop (default_to meter s.meter_start_wh) meter)))
                    _ (recorded user correlation (switched db)) run refl))),
          same,
        )

    body-completes :
        (user : AuthUser) (correlation : ℕ) (db : ChargingDb D) (c : Connector D)
        → s.status ≡ SessionStatus.stopping
        → find session_id_of s.id db.sessions ≡ some s
        → find connector_id_of s.connector_id db.connectors ≡ some c
        → find user_id_of s.user_id db.users ≡ some u
        → (db' : ChargingDb D) × (complete_body s.id user correlation meter now db ≡ ok (done, db'))
          × (find connector_id_of s.connector_id db'.connectors
              ≡ some (with_connector_status ConnectorStatus.available c))
    unfolding complete_body read_session
    body-completes user correlation db c stopping found connected known =
        let (db', run, same) =
          stopping-completes user correlation db c stopping found connected known in
        (
          db',
          (let read : read_session s.id db ≡ ok (s, db) = rw (read_session, found) refl in
              >>=-runs (read_session s.id) _ db read
                (else-runs (s.status == SessionStatus.completed) _ _ db (elsewhere stopping) run)),
          ap (find connector_id_of s.connector_id) same
              ∙ found-before connector_id_of s.connector_id
                  (with_connector_status ConnectorStatus.available) db.connectors (λ k. refl)
                  s.connector_id c connected
              ∙ rw ((nat_eq_iff s.connector_id s.connector_id).1 refl) refl,
        )

    completed_row :
        (done.status ≡ SessionStatus.completed)
        × (falls done.meter_start_wh done.meter_stop_wh ≡ false)
        × (done.energy_kwh ≡ can.energy)
        × (done.total_amount ≡ can.price)
    unfolding changed_session
    completed_row = (refl, normalized_stop-falls s.meter_start_wh meter, refl, refl)

  -- Over numbers that obey the laws of `IsLawful`: a session that is STOPPING is completed, for any
  -- meter that the charger reports, one below its start too, if its connector and its driver are
  -- there, its fees are from 0 up, its duration is a finite number, its start is not ahead of the
  -- clock and the columns can hold the numbers: the transaction returns it COMPLETED, its final
  -- meter is not below its start, its energy and its price are what the columns hold of them, and
  -- its connector is AVAILABLE.
  pub complete_body-completes :
      (s : ChargingSession D) (u : UserTotals D) (meter : ℤ) (now : ℕ)
      (can : CanComplete s u meter now) (user : AuthUser) (correlation : ℕ) (db : ChargingDb D)
      (c : Connector D)
      → s.status ≡ SessionStatus.stopping
      → find session_id_of s.id db.sessions ≡ some s
      → find connector_id_of s.connector_id db.connectors ≡ some c
      → find user_id_of s.user_id db.users ≡ some u
      → (t : ChargingSession D) × (db' : ChargingDb D) × (complete_body s.id user correlation meter
            now db
          ≡ ok (t, db'))
        × (t.status ≡ SessionStatus.completed)
        × (falls t.meter_start_wh t.meter_stop_wh ≡ false)
        × (t.energy_kwh ≡ can.energy)
        × (t.total_amount ≡ can.price)
        × (find connector_id_of s.connector_id db'.connectors
            ≡ some (with_connector_status ConnectorStatus.available c))
  complete_body-completes s u meter now can user correlation db c stopping found connected known =
      let (db', run, c') =
        body-completes s u meter now can user correlation db c stopping found connected known in
      (
        changed_session SessionStatus.completed (stored_completion s u meter now can) s,
        db',
        run,
        (completed_row s u meter now can).0,
        (completed_row s u meter now can).1,
        (completed_row s u meter now can).2,
        (completed_row s u meter now can).3,
        c',
      )
