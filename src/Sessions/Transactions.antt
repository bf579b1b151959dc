-- ===== src/Sessions/Transactions.antt =====
-- The transactions of start and stop: each moves its session one accepted step or leaves it.
use ev_charge_platform.Prelude.{
  ℕ, ◌≡◌, refl, ◌∙◌, ap, inl, inr, ℕ_eq, false, not, ◌||◌, some, find, ◌==◌, ok, >>=-then, if-eq-ok,
  throw_if, throw_if-eq-ok, pure-eq-ok, conflict, connector_unavailable, invalid_session_state,
  arith,
}
use ev_charge_platform.Database.{
  AuthUser, SessionStatus, SessionStatus_eq, ConnectorStatus, ConnectorStatus_eq,
}
use ev_charge_platform.Sessions.Tariffs.{Doubles}
use ev_charge_platform.Sessions.Rows.{ChargingSession, ChargingDb, connector_id_of, session_id_of}
use ev_charge_platform.Sessions.Statements.{no_change, set_connector_status, transition}
use ev_charge_platform.Sessions.Progress.{
  Prepared, StartChargeResult, cannot_start, read_session, load_session, authorize_body,
  start_authorized, prepare_start, activate_starting, activate,
}
use ev_charge_platform.Sessions.Effects.{IsQuiet-of_eq}
use ev_charge_platform.Sessions.Moves.{
  Moves, read_session-eq-ok, load_session-eq-ok, transition-Moves, switch_and_transition-Moves,
}

module _ {D : Type 0} ⦃f : Doubles D⦄ where
  pub Moves-from : {a b c : ChargingDb D} → b ≡ a → Moves b c → Moves a c
  Moves-from same m = rw same at m

  pub authorize_body-Moves :
      (id : ℕ) (user : AuthUser) (correlation : ℕ) (db : ChargingDb D) {s : ChargingSession D}
      {db' : ChargingDb D}
      → authorize_body id user correlation db ≡ ok (s, db')
      → Moves db db'
  unfolding authorize_body
  authorize_body-Moves id user correlation db h =
      >>=-then (read_session id) _ db h λ current d e rest.
        let (read, same, number) = read_session-eq-ok id db e in
        elim (if-eq-ok (current.status == SessionStatus.authorized) _ _ d rest) [
          | inl (there, g) ↦ inl (IsQuiet-of_eq ((pure-eq-ok g).1 ∙ same))
          | inr (elsewhere, g) ↦
              Moves-from same
                (transition-Moves current SessionStatus.authorized user correlation no_change d g)
        ]

  start_authorized-Moves :
      (session : ChargingSession D) (user : AuthUser) (correlation : ℕ) (db : ChargingDb D)
      {p : Prepared D} {db' : ChargingDb D}
      → start_authorized session user correlation db ≡ ok (p, db')
      → Moves db db'
  unfolding start_authorized
  start_authorized-Moves session user correlation db {db' = db'} h =
      >>=-then (throw_if (not (session.status == SessionStatus.authorized)) invalid_session_state) _
        db h
        λ u d1 h1 r1.
          >>=-then
            (throw_if (cannot_start (find connector_id_of session.connector_id d1.connectors))
              connector_unavailable)
            _ d1 r1
            λ v d2 h2 r2.
              >>=-then (transition session SessionStatus.starting user correlation no_change) _ d2
                r2
                λ starting d3 h3 r3.
                  let same =
                    (throw_if-eq-ok
                      (cannot_start (find connector_id_of session.connector_id d1.connectors))
                      connector_unavailable d1 h2).1
                    ∙ (throw_if-eq-ok (not (session.status == SessionStatus.authorized))
                        invalid_session_state db h1).1 in
                  rw (pure-eq-ok r3).1 (
                    Moves-from same (
                      transition-Moves session SessionStatus.starting user correlation no_change d2
                        h3))

  pub prepare_start-Moves :
      (id : ℕ) (user : AuthUser) (correlation : ℕ) (db : ChargingDb D) {p : Prepared D}
      {db' : ChargingDb D}
      → prepare_start id user correlation db ≡ ok (p, db')
      → Moves db db'
  unfolding prepare_start
  prepare_start-Moves id user correlation db h =
      >>=-then (load_session id user.sub) _ db h λ session d e rest.
        let same = load_session-eq-ok id user.sub db e in
        elim (if-eq-ok
          (session.status == SessionStatus.starting || session.status == SessionStatus.charging) _ _
          d rest) [
            | inl (there, g) ↦ inl (IsQuiet-of_eq ((pure-eq-ok g).1 ∙ same))
            | inr (elsewhere, g) ↦
                Moves-from same (start_authorized-Moves session user correlation d g)
          ]

  activate_starting-Moves :
      (current : ChargingSession D) (user : AuthUser) (correlation : ℕ)
      (accepted : StartChargeResult D) (now : ℕ) (db : ChargingDb D) {s : ChargingSession D}
      {db' : ChargingDb D}
      → find session_id_of current.id db.sessions ≡ some current
      → activate_starting current user correlation accepted now db ≡ ok (s, db')
      → Moves db db'
  unfolding activate_starting
  activate_starting-Moves current user correlation accepted now db {db' = db'} read h =
      >>=-then (throw_if (not (current.status == SessionStatus.starting)) conflict) _ db h
        λ u d1 h1 r1.
          >>=-then (set_connector_status current.connector_id ConnectorStatus.occupied) _ d1 r1
            λ v d2 h2 r2.
              let (there, same) =
                throw_if-eq-ok (not (current.status == SessionStatus.starting)) conflict db h1 in
              let elsewhere : (current.status == SessionStatus.charging) ≡ false = ground arith in
              inr (
                rw same at (
                  switch_and_transition-Moves current SessionStatus.charging
                    ConnectorStatus.occupied user correlation _ d1 d2
                    (ap (λ (x : ChargingDb D). find session_id_of current.id x.sessions) same
                      ∙ read)
                    elsewhere (inl refl) h2 r2))

  pub activate-Moves :
      (id : ℕ) (user : AuthUser) (correlation : ℕ) (accepted : StartChargeResult D) (now : ℕ)
      (db : ChargingDb D) {s : ChargingSession D} {db' : ChargingDb D}
      → activate id user correlation accepted now db ≡ ok (s, db')
      → Moves db db'
  unfolding activate
  activate-Moves id user correlation accepted now db h =
      >>=-then (read_session id) _ db h λ current d e rest.
        let (read, same, number) = read_session-eq-ok id db e in
        elim (if-eq-ok (current.status == SessionStatus.charging) _ _ d rest) [
          | inl (there, g) ↦ inl (IsQuiet-of_eq ((pure-eq-ok g).1 ∙ same))
          | inr (elsewhere, g) ↦
              activate_starting-Moves current user correlation accepted now db read (rw same at g)
        ]
