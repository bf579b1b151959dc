-- ===== src/Sessions/Effects.antt =====
-- What the statements of a charging transaction change.
use ev_charge_platform.Prelude.{
  ℕ, Failure, ◌≡◌, refl, ◌∙◌, ap, ◌⊎◌, inl, inr, ℕ_eq, true, false, Option, none, some, find,
  update, ◌==◌, ok, lift, or_throw, Bool-cases, Option-cases, Result-cases, >>=-then,
  optimistic_lock_conflict, pure-eq-ok, lift-eq-ok, arith,
}
use ev_charge_platform.Database.{
  AuthUser, SessionStatus, SessionStatus_eq, same_session_status_iff, ConnectorStatus,
}
use ev_charge_platform.Charging.{assert_charging_session_transition}
use ev_charge_platform.Sessions.Tariffs.{Doubles}
use ev_charge_platform.Sessions.Rows.{ChargingSession, ChargingDb, connector_id_of, session_id_of}
use ev_charge_platform.Sessions.Statements.{
  SessionChange, write_audit, publish, with_connector_status, set_connector_status, unchanged_since,
  breaks_session_check, stored_change, changed_session, update_session, move_session, transition,
}

module _ {D : Type 0} where
  -- The sessions, the connectors and the next number are as they were.
  pub record IsQuiet (db db' : ChargingDb D) : Type 0 where
    pub sessions : db'.sessions ≡ db.sessions
    pub connectors : db'.connectors ≡ db.connectors
    pub next_id : db'.next_id ≡ db.next_id

  pub IsQuiet-refl : (db : ChargingDb D) → IsQuiet db db
  IsQuiet-refl db = record { sessions = refl; connectors = refl; next_id = refl }

  pub IsQuiet-through : {a b c : ChargingDb D} → IsQuiet a b → IsQuiet b c → IsQuiet a c
  IsQuiet-through p q = record {
    sessions = q.sessions ∙ p.sessions;
    connectors = q.connectors ∙ p.connectors;
    next_id = q.next_id ∙ p.next_id;
  }

  pub IsQuiet-of_eq : {a b : ChargingDb D} → b ≡ a → IsQuiet a b
  IsQuiet-of_eq e = record {
    sessions = ap (λ d. d.sessions) e;
    connectors = ap (λ d. d.connectors) e;
    next_id = ap (λ d. d.next_id) e;
  }

  -- One connector got a status.
  pub record IsSwitched (id : ℕ) (status : ConnectorStatus) (db db' : ChargingDb D) : Type 0 where
    pub sessions : db'.sessions ≡ db.sessions
    pub connectors :
        db'.connectors ≡ update connector_id_of id (with_connector_status status) db.connectors
    pub next_id : db'.next_id ≡ db.next_id

  pub set_connector_status-IsSwitched :
      (id : ℕ) (status : ConnectorStatus) (db : ChargingDb D) {u : Unit {0}} {db' : ChargingDb D}
      → set_connector_status id status db ≡ ok (u, db')
      → IsSwitched id status db db'
  unfolding set_connector_status
  set_connector_status-IsSwitched id status db h = ground arith

module _ {D : Type 0} ⦃f : Doubles D⦄ where
  -- One session, which has not changed since it was read, got a status and columns.
  pub record IsWritten (current : ChargingSession D) (target : SessionStatus)
      (db db' : ChargingDb D) : Type 0 where
    pub row : ChargingSession D
    pub stored : SessionChange D
    pub found : find session_id_of current.id db.sessions ≡ some row
    pub same_status : row.status ≡ current.status
    pub checked : breaks_session_check (changed_session target stored row) ≡ false
    pub sessions :
        db'.sessions ≡ update session_id_of current.id (changed_session target stored) db.sessions
    pub connectors : db'.connectors ≡ db.connectors
    pub next_id : db'.next_id ≡ db.next_id

  unchanged_status :
      (current row : ChargingSession D)
      → unchanged_since current row ≡ true
      → row.status ≡ current.status
  unchanged_status current row h = ground (arith, same_session_status_iff row.status current.status)

  pub update_session-IsWritten :
      (current : ChargingSession D) (target : SessionStatus) (columns : SessionChange D)
      (db : ChargingDb D) {s : ChargingSession D} {db' : ChargingDb D}
      → update_session current target columns db ≡ ok (some s, db')
      → IsWritten current target db db'
  unfolding update_session
  update_session-IsWritten current target columns db h =
      elim (Option-cases (find session_id_of current.id db.sessions)) [
        | inl e ↦ cc ((pure-eq-ok (rw (update_session, e) at h)).0)
        | inr (row, e) ↦ elim (Bool-cases (unchanged_since current row)) [
          | inr changed ↦ cc ((pure-eq-ok (rw (update_session, e, changed) at h)).0)
          | inl same ↦ elim (Result-cases (stored_change columns)) [
            | inr (x, refused) ↦ cc (rw (update_session, e, same, refused) at h)
            | inl (stored, held) ↦
                elim (Bool-cases (breaks_session_check (changed_session target stored row))) [
                  | inl broken ↦ cc (rw (update_session, e, same, held, broken) at h)
                  | inr fine ↦
                      let g = pure-eq-ok (rw (update_session, e, same, held, fine) at h) in
                      record {
                        row = row;
                        stored = stored;
                        found = e;
                        same_status = unchanged_status current row same;
                        checked = fine;
                        sessions = ap (λ (d : ChargingDb D). d.sessions) g.1;
                        connectors = ap (λ (d : ChargingDb D). d.connectors) g.1;
                        next_id = ap (λ (d : ChargingDb D). d.next_id) g.1;
                      }
                ]
          ]
        ]
      ]

  pub or_throw-eq-ok :
      {A : Type 0} (o : Option A) (x : Failure) (db : ChargingDb D) {a : A} {db' : ChargingDb D}
      → or_throw o x db ≡ ok (a, db')
      → (o ≡ some a) × (db' ≡ db)
  or_throw-eq-ok none x db h = cc h
  or_throw-eq-ok (some a) x db h = ground arith

  IsWritten-more :
      (current : ChargingSession D) (target : SessionStatus) {a b c : ChargingDb D}
      → IsWritten current target a b
      → IsQuiet b c
      → IsWritten current target a c
  IsWritten-more current target w q = record {
    row = w.row;
    stored = w.stored;
    found = w.found;
    same_status = w.same_status;
    checked = w.checked;
    sessions = q.sessions ∙ w.sessions;
    connectors = q.connectors ∙ w.connectors;
    next_id = q.next_id ∙ w.next_id;
  }

  move_session-IsWritten :
      (current : ChargingSession D) (target : SessionStatus) (user : AuthUser) (correlation : ℕ)
      (columns : SessionChange D) (db : ChargingDb D) {s : ChargingSession D} {db' : ChargingDb D}
      → move_session current target user correlation columns db ≡ ok (s, db')
      → IsWritten current target db db'
  unfolding move_session write_audit publish
  move_session-IsWritten current target user correlation columns db {db' = db'} h =
      >>=-then (update_session current target columns) _ db h λ found db1 e rest.
        >>=-then (or_throw found optimistic_lock_conflict) _ db1 rest λ row db2 there more.
          let (some_row, same) = or_throw-eq-ok found optimistic_lock_conflict db1 there in
          let w = update_session-IsWritten current target columns db (rw some_row at e) in
          let q : IsQuiet db2 db' = ground arith in
          IsWritten-more current target w (IsQuiet-through (IsQuiet-of_eq same) q)

  -- What `transition` does when it returns: its check has passed, and it leaves the tables alone or
  -- has written one session.
  pub transition-eq-ok :
      (current : ChargingSession D) (target : SessionStatus) (user : AuthUser) (correlation : ℕ)
      (columns : SessionChange D) (db : ChargingDb D) {s : ChargingSession D} {db' : ChargingDb D}
      → transition current target user correlation columns db ≡ ok (s, db')
      → (assert_charging_session_transition current.status target ≡ ok tt)
        × (((current.status ≡ target) × IsQuiet db db') ⊎ IsWritten current target db db')
  unfolding transition
  transition-eq-ok current target user correlation columns db h =
      >>=-then (lift (assert_charging_session_transition current.status target)) _ db h
        λ u db1 e rest.
          let (accepted, same) =
            lift-eq-ok (assert_charging_session_transition current.status target) db e in
          (
            accepted,
            elim (Bool-cases (current.status == target)) [
              | inl there ↦
                  let g = pure-eq-ok (rw there at rest) in
                  inl (
                    (same_session_status_iff current.status target).0 there,
                    IsQuiet-of_eq (g.1 ∙ same),
                  )
              | inr elsewhere ↦ inr (
                  move_session-IsWritten current target user correlation columns db
                    (rw (same, elsewhere) at rest))
            ],
          )
