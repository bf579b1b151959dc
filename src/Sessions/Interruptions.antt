-- ===== src/Sessions/Interruptions.antt =====
-- Failures, disconnections and samples: each moves its session one accepted step or leaves it.
use ev_charge_platform.Prelude.{
  ℕ, ◌≡◌, refl, sym, ◌∙◌, ap, inl, inr, ℕ_eq, String, Bool, true, false, ◌||◌, Option, some, find,
  find-column, update, ◌==◌, ok, pure, lift, or_throw, Bool-cases, Option-cases, >>=-then, if-eq-ok,
  lift-eq-ok, pure-eq-ok, conflict, optimistic_lock_conflict, if◌then◌else◌, arith,
}
use ev_charge_platform.Database.{
  AuthUser, SessionStatus, SessionStatus_eq, same_session_status_iff, ConnectorStatus,
  ConnectorStatus_eq,
}
use ev_charge_platform.Charging.{
  assert_charging_session_transition, is_active_charging_session_state,
  is_terminal_charging_session_state,
}
use ev_charge_platform.Sessions.Tariffs.{Doubles}
use ev_charge_platform.Sessions.Rows.{
  ChargingSession, ChargingDb, MeterValue, connector_id_of, session_id_of,
}
use ev_charge_platform.Sessions.Statements.{
  held, set_connector_status, update_session, write_audit, publish,
}
use ev_charge_platform.Sessions.Progress.{read_session, energy_between}
use ev_charge_platform.Sessions.Metering.{
  Sample, is_offline, write_sample, sample_change, sample_session, sample_row, sample_charging,
  sample_body, start_of,
}
use ev_charge_platform.Sessions.Endings.{
  disconnect_running, disconnect_body, lost_connector, fail_running, fail_body,
}
use ev_charge_platform.Sessions.Effects.{
  IsQuiet, IsQuiet-of_eq, IsQuiet-through, or_throw-eq-ok, set_connector_status-IsSwitched,
  update_session-IsWritten,
}
use ev_charge_platform.Sessions.Consistency.{IsMove}
use ev_charge_platform.Sessions.Moves.{
  Moves, read_session-eq-ok, written-IsMove, switched-IsMove, switch_and_transition-Moves,
}
use ev_charge_platform.Sessions.Closings.{Moves-more}

open_fails :
    (s : SessionStatus)
    → is_terminal_charging_session_state s ≡ false
    → ((s == SessionStatus.failed) ≡ false)
      × (is_active_charging_session_state s ≡ true)
      × (is_active_charging_session_state SessionStatus.failed ≡ false)
unfolding is_active_charging_session_state is_terminal_charging_session_state
open_fails s h = ground arith

stays_accepted :
    (s t : SessionStatus) → (s == t) ≡ true → assert_charging_session_transition s t ≡ ok tt
unfolding assert_charging_session_transition
stays_accepted s t h = rw h refl

module _ {D : Type 0} ⦃f : Doubles D⦄ where
  fail_running-Moves :
      (current : ChargingSession D) (user : AuthUser) (correlation : ℕ) (reason : String)
      (lost : Bool) (now : ℕ) (db : ChargingDb D) {s : ChargingSession D} {db' : ChargingDb D}
      → find session_id_of current.id db.sessions ≡ some current
      → is_terminal_charging_session_state current.status ≡ false
      → fail_running current user correlation reason lost now db ≡ ok (s, db')
      → Moves db db'
  unfolding fail_running
  fail_running-Moves current user correlation reason lost now db read running h =
      >>=-then (set_connector_status current.connector_id (lost_connector lost)) _ db h
        λ u d1 h1 r1.
          let (elsewhere, live, over) = open_fails current.status running in
          inr (
            switch_and_transition-Moves current SessionStatus.failed (lost_connector lost) user
              correlation _ db d1 read elsewhere (inr (live, over)) h1 r1)

  pub fail_body-Moves :
      (id : ℕ) (user : AuthUser) (correlation : ℕ) (reason : String) (lost : Bool) (now : ℕ)
      (db : ChargingDb D) {s : ChargingSession D} {db' : ChargingDb D}
      → fail_body id user correlation reason lost now db ≡ ok (s, db')
      → Moves db db'
  unfolding fail_body
  fail_body-Moves id user correlation reason lost now db h =
      >>=-then (read_session id) _ db h λ current d e rest.
        let (read, same, number) = read_session-eq-ok id db e in
        elim (if-eq-ok (is_terminal_charging_session_state current.status) _ _ d rest) [
          | inl (there, g) ↦ inl (IsQuiet-of_eq ((pure-eq-ok g).1 ∙ same))
          | inr (running, g) ↦
              fail_running-Moves current user correlation reason lost now db read running
                (rw same at g)
        ]

  disconnect_running-Moves :
      (current : ChargingSession D) (user : AuthUser) (correlation : ℕ) (reason : String)
      (db : ChargingDb D) {s : ChargingSession D} {db' : ChargingDb D}
      → find session_id_of current.id db.sessions ≡ some current
      → disconnect_running current user correlation reason db ≡ ok (s, db')
      → Moves db db'
  unfolding disconnect_running write_audit publish
  disconnect_running-Moves current user correlation reason db {db' = db'} read h =
      >>=-then (set_connector_status current.connector_id ConnectorStatus.offline) _ db h
        λ u d1 h1 r1. >>=-then (update_session current current.status _) _ d1 r1 λ found d2 h2 r2.
          >>=-then (or_throw found optimistic_lock_conflict) _ d2 r2 λ row d3 h3 r3.
            let (some_row, same) = or_throw-eq-ok found optimistic_lock_conflict d2 h3 in
            let q : IsQuiet d3 db' = ground arith in
            let m =
              switched-IsMove current current.status ConnectorStatus.offline db d1 d2 read
                (stays_accepted current.status current.status
                  ((same_session_status_iff current.status current.status).1 refl))
                (inl refl)
                (set_connector_status-IsSwitched current.connector_id ConnectorStatus.offline db h1)
                (update_session-IsWritten current current.status _ d1 (rw some_row at h2)) in
            inr (Moves-more m (IsQuiet-through (IsQuiet-of_eq same) q))

  pub disconnect_body-Moves :
      (id : ℕ) (user : AuthUser) (correlation : ℕ) (reason : String) (db : ChargingDb D)
      {s : ChargingSession D} {db' : ChargingDb D}
      → disconnect_body id user correlation reason db ≡ ok (s, db')
      → Moves db db'
  unfolding disconnect_body
  disconnect_body-Moves id user correlation reason db h =
      >>=-then (read_session id) _ db h λ current d e rest.
        let (read, same, number) = read_session-eq-ok id db e in
        elim (if-eq-ok
          (current.status == SessionStatus.charging || current.status == SessionStatus.stopping) _ _
          d rest) [
            | inl (running, g) ↦
                disconnect_running-Moves current user correlation reason db read (rw same at g)
            | inr (elsewhere, g) ↦ inl (IsQuiet-of_eq ((pure-eq-ok g).1 ∙ same))
          ]

  IsMove-later : {a b c : ChargingDb D} → IsQuiet a b → IsMove b c → IsMove a c
  IsMove-later q m = record {
    id = m.id;
    row = m.row;
    change = m.change;
    switch = m.switch;
    found = ap (find session_id_of m.id) (sym q.sessions) ∙ m.found;
    sessions = m.sessions ∙ ap (update session_id_of m.id m.change) q.sessions;
    connectors =
        m.connectors ∙ ap (update connector_id_of m.row.connector_id m.switch) q.connectors;
    next_id = m.next_id ∙ q.next_id;
    keeps_id = m.keeps_id;
    keeps_place = m.keeps_place;
    keeps_connector = m.keeps_connector;
    accepted = m.accepted;
    freeing = m.freeing;
  }

  write_sample-IsQuiet :
      (v : MeterValue D) (db : ChargingDb D) {u : Unit {0}} {db' : ChargingDb D}
      → write_sample v db ≡ ok (u, db')
      → IsQuiet db db'
  unfolding write_sample
  write_sample-IsQuiet v db h = ground arith

  -- The session of a sample is written, behind its connector if that was OFFLINE.
  sampled-IsMove :
      (current : ChargingSession D) (sample : Sample D) (offline : Bool) (a b c : ChargingDb D)
      {u : Unit {0}} {s : ChargingSession D}
      → find session_id_of current.id a.sessions ≡ some current
      → assert_charging_session_transition current.status SessionStatus.charging ≡ ok tt
      → (if offline
            then set_connector_status current.connector_id ConnectorStatus.occupied
            else pure tt)
          a
        ≡ ok (u, b)
      → update_session current SessionStatus.charging (sample_change current sample) b
        ≡ ok (some s, c)
      → IsMove a c
  sampled-IsMove current sample offline a b c read accepted first second =
      let w =
        update_session-IsWritten current SessionStatus.charging (sample_change current sample) b
          second in
      elim (if-eq-ok offline _ _ a first) [
        | inl (there, g) ↦
            switched-IsMove current SessionStatus.charging ConnectorStatus.occupied a b c read
              accepted (inl refl)
              (set_connector_status-IsSwitched current.connector_id ConnectorStatus.occupied a g) w
        | inr (elsewhere, g) ↦
            written-IsMove current SessionStatus.charging a c accepted (rw (pure-eq-ok g).1 at w)
      ]

  sample_session-IsMove :
      (current : ChargingSession D) (sample : Sample D) (db : ChargingDb D)
      {o : Option (ChargingSession D)} {db' : ChargingDb D}
      → find session_id_of current.id db.sessions ≡ some current
      → (current.status == SessionStatus.charging) ≡ true
      → sample_session current sample db ≡ ok (o, db')
      → IsMove db db'
  unfolding sample_session
  sample_session-IsMove current sample db read there h =
      let offline = is_offline (find connector_id_of current.connector_id db.connectors) in
      >>=-then
        (if offline
          then set_connector_status current.connector_id ConnectorStatus.occupied
          else pure tt)
        _ db h
        λ v d1 h1 r1.
          >>=-then (update_session current SessionStatus.charging (sample_change current sample)) _
            d1 r1
            λ found d2 h2 r2. >>=-then (or_throw found conflict) _ d2 r2 λ row d3 h3 r3.
              let (some_row, same) = or_throw-eq-ok found conflict d2 h3 in
              let m =
                sampled-IsMove current sample offline db d1 d2 read
                  (stays_accepted current.status SessionStatus.charging there) h1
                  (rw some_row at h2) in
              Moves-more m (IsQuiet-of_eq ((pure-eq-ok {x = some row} r3).1 ∙ same))

  sample_charging-Moves :
      (current : ChargingSession D) (sample : Sample D) (db : ChargingDb D)
      {o : Option (ChargingSession D)} {db' : ChargingDb D}
      → find session_id_of current.id db.sessions ≡ some current
      → (current.status == SessionStatus.charging) ≡ true
      → sample_charging current sample db ≡ ok (o, db')
      → Moves db db'
  unfolding sample_charging
  sample_charging-Moves current sample db read there h =
      let energy_column =
        held
          (f.to_column 12 3 (energy_between (start_of current sample.meter_wh) sample.meter_wh)) in
      let power_column = held (f.to_column 8 2 sample.power_kw) in
      >>=-then (lift energy_column) _ db h λ energy d1 h1 r1.
        >>=-then (lift power_column) _ d1 r1 λ power d2 h2 r2.
          >>=-then (write_sample (sample_row current sample energy power)) _ d2 r2 λ u d3 h3 r3.
            let before : IsQuiet db d3 =
              IsQuiet-through
                (IsQuiet-of_eq
                  ((lift-eq-ok power_column d1 h2).1 ∙ (lift-eq-ok energy_column db h1).1))
                (write_sample-IsQuiet (sample_row current sample energy power) d2 h3) in
            inr (
              IsMove-later before (
                sample_session-IsMove current sample d3
                  (ap (find session_id_of current.id) before.sessions ∙ read) there r3))

  pub sample_body-Moves :
      (id : ℕ) (sample : Sample D) (db : ChargingDb D) {o : Option (ChargingSession D)}
      {db' : ChargingDb D}
      → sample_body id sample db ≡ ok (o, db')
      → Moves db db'
  unfolding sample_body
  sample_body-Moves id sample db h = elim (Option-cases (find session_id_of id db.sessions)) [
    | inl e ↦ inl (IsQuiet-of_eq (pure-eq-ok (rw (sample_body, e) at h)).1)
    | inr (current, e) ↦ elim (Bool-cases (current.status == SessionStatus.charging)) [
      | inr over ↦ inl (IsQuiet-of_eq (pure-eq-ok (rw (sample_body, e, over) at h)).1)
      | inl there ↦
          sample_charging-Moves current sample db
            (ap (λ k. find session_id_of k db.sessions)
                (find-column session_id_of id current db.sessions e)
              ∙ e)
            there (rw (sample_body, e, there) at h)
    ]
  ]
