-- ===== src/Sessions/Closings.antt =====
-- The transactions that end a session or sample it: each moves it one accepted step or leaves it.
use ev_charge_platform.Prelude.{
  ℕ, ℤ, ◌≡◌, ◌∙◌, ap, inl, inr, ℕ_eq, true, false, not, ◌||◌, some, find, ◌==◌, ok, >>=-then,
  if-eq-ok, throw_if, throw_if-eq-ok, pure-eq-ok, conflict, invalid_session_state, arith,
}
use ev_charge_platform.Database.{
  AuthUser, SessionStatus, SessionStatus_eq, ConnectorStatus, ConnectorStatus_eq,
}
use ev_charge_platform.Charging.{is_active_charging_session_state}
use ev_charge_platform.Sessions.Tariffs.{Doubles}
use ev_charge_platform.Sessions.Rows.{ChargingSession, ChargingDb, session_id_of}
use ev_charge_platform.Sessions.Statements.{no_change, set_connector_status, transition}
use ev_charge_platform.Sessions.Progress.{
  Prepared, read_session, load_session, stop_charging, prepare_stop, add_to_totals, completion,
  complete_stopping, complete_body,
}
use ev_charge_platform.Sessions.Effects.{IsQuiet, IsQuiet-of_eq, IsQuiet-through}
use ev_charge_platform.Sessions.Consistency.{IsMove}
use ev_charge_platform.Sessions.Moves.{
  Moves, read_session-eq-ok, load_session-eq-ok, transition-Moves, switch_and_transition-Moves,
}
use ev_charge_platform.Sessions.Transactions.{Moves-from}

stopping_ends :
    (s : SessionStatus)
    → not (s == SessionStatus.stopping) ≡ false
    → ((s == SessionStatus.completed) ≡ false)
      × (is_active_charging_session_state s ≡ true)
      × (is_active_charging_session_state SessionStatus.completed ≡ false)
unfolding is_active_charging_session_state
stopping_ends s h = ground arith

module _ {D : Type 0} ⦃f : Doubles D⦄ where
  -- What comes behind a move and leaves sessions and connectors alone.
  pub Moves-more : {a b c : ChargingDb D} → IsMove a b → IsQuiet b c → IsMove a c
  Moves-more m q = record {
    id = m.id;
    row = m.row;
    change = m.change;
    switch = m.switch;
    found = m.found;
    sessions = q.sessions ∙ m.sessions;
    connectors = q.connectors ∙ m.connectors;
    next_id = q.next_id ∙ m.next_id;
    keeps_id = m.keeps_id;
    keeps_place = m.keeps_place;
    keeps_connector = m.keeps_connector;
    accepted = m.accepted;
    freeing = m.freeing;
  }

  stop_charging-Moves :
      (session : ChargingSession D) (user : AuthUser) (correlation : ℕ) (db : ChargingDb D)
      {p : Prepared D} {db' : ChargingDb D}
      → stop_charging session user correlation db ≡ ok (p, db')
      → Moves db db'
  unfolding stop_charging
  stop_charging-Moves session user correlation db h =
      >>=-then (throw_if (not (session.status == SessionStatus.charging)) invalid_session_state) _
        db h
        λ u d1 h1 r1.
          >>=-then (transition session SessionStatus.stopping user correlation no_change) _ d1 r1
            λ stopping d2 h2 r2.
              let same =
                (throw_if-eq-ok (not (session.status == SessionStatus.charging))
                  invalid_session_state db h1).1 in
              rw (pure-eq-ok r2).1 (
                Moves-from same (
                  transition-Moves session SessionStatus.stopping user correlation no_change d1 h2))

  pub prepare_stop-Moves :
      (id : ℕ) (user : AuthUser) (correlation : ℕ) (db : ChargingDb D) {p : Prepared D}
      {db' : ChargingDb D}
      → prepare_stop id user correlation db ≡ ok (p, db')
      → Moves db db'
  unfolding prepare_stop
  prepare_stop-Moves id user correlation db h =
      >>=-then (load_session id user.sub) _ db h λ session d e rest.
        let same = load_session-eq-ok id user.sub db e in
        elim (if-eq-ok
          (session.status == SessionStatus.completed || session.status == SessionStatus.stopping) _
          _ d rest) [
            | inl (there, g) ↦ inl (IsQuiet-of_eq ((pure-eq-ok g).1 ∙ same))
            | inr (elsewhere, g) ↦
                Moves-from same (stop_charging-Moves session user correlation d g)
          ]

  pub add_to_totals-IsQuiet :
      (user : ℕ) (energy : D) (db : ChargingDb D) {u : Unit {0}} {db' : ChargingDb D}
      → add_to_totals user energy db ≡ ok (u, db')
      → IsQuiet db db'
  unfolding add_to_totals
  add_to_totals-IsQuiet user energy db h = ground arith

  complete_stopping-Moves :
      (current : ChargingSession D) (user : AuthUser) (correlation : ℕ) (meter_stop : ℤ) (now : ℕ)
      (db : ChargingDb D) {s : ChargingSession D} {db' : ChargingDb D}
      → find session_id_of current.id db.sessions ≡ some current
      → complete_stopping current user correlation meter_stop now db ≡ ok (s, db')
      → Moves db db'
  unfolding complete_stopping
  complete_stopping-Moves current user correlation meter_stop now db read h =
      >>=-then (throw_if (not (current.status == SessionStatus.stopping)) conflict) _ db h
        λ u d1 h1 r1.
          >>=-then (set_connector_status current.connector_id ConnectorStatus.available) _ d1 r1
            λ v d2 h2 r2.
              >>=-then
                (transition current SessionStatus.completed user correlation
                  (completion current meter_stop now))
                _ d2 r2
                λ done d3 h3 r3. >>=-then (add_to_totals current.user_id _) _ d3 r3 λ w d4 h4 r4.
                  let (there, same) =
                    throw_if-eq-ok (not (current.status == SessionStatus.stopping)) conflict db
                      h1 in
                  let (elsewhere, live, over) = stopping_ends current.status there in
                  let m =
                    switch_and_transition-Moves current SessionStatus.completed
                      ConnectorStatus.available user correlation (completion current meter_stop now)
                      d1 d2
                      (ap (λ (x : ChargingDb D). find session_id_of current.id x.sessions) same
                        ∙ read)
                      elsewhere (inr (live, over)) h2 h3 in
                  inr (
                    rw same at (
                      Moves-more m (
                        IsQuiet-through (add_to_totals-IsQuiet current.user_id _ d3 h4)
                          (IsQuiet-of_eq (pure-eq-ok r4).1))))

  pub complete_body-Moves :
      (id : ℕ) (user : AuthUser) (correlation : ℕ) (meter_stop : ℤ) (now : ℕ) (db : ChargingDb D)
      {s : ChargingSession D} {db' : ChargingDb D}
      → complete_body id user correlation meter_stop now db ≡ ok (s, db')
      → Moves db db'
  unfolding complete_body
  complete_body-Moves id user correlation meter_stop now db h =
      >>=-then (read_session id) _ db h λ current d e rest.
        let (read, same, number) = read_session-eq-ok id db e in
        elim (if-eq-ok (current.status == SessionStatus.completed) _ _ d rest) [
          | inl (there, g) ↦ inl (IsQuiet-of_eq ((pure-eq-ok g).1 ∙ same))
          | inr (elsewhere, g) ↦
              complete_stopping-Moves current user correlation meter_stop now db read (rw same at g)
        ]
