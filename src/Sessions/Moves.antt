-- ===== src/Sessions/Moves.antt =====
-- Every transaction on a session leaves it alone or moves it one step, with its connector.
use ev_charge_platform.Prelude.{
  ℕ, ◌≡◌, refl, sym, ◌∙◌, ap, ◌⊎◌, inl, inr, ℕ_eq, true, false, some, find, find-column, update,
  update-same, ◌==◌, ok, Option-cases, pure-eq-ok, arith,
}
use ev_charge_platform.Database.{
  AuthUser, SessionStatus, SessionStatus_eq, same_session_status_iff, ConnectorStatus,
  ConnectorStatus_eq,
}
use ev_charge_platform.Charging.{
  assert_charging_session_transition, is_active_charging_session_state,
}
use ev_charge_platform.Sessions.Tariffs.{Doubles}
use ev_charge_platform.Sessions.Rows.{ChargingSession, ChargingDb, connector_id_of, session_id_of}
use ev_charge_platform.Sessions.Statements.{
  SessionChange, with_connector_status, set_connector_status, changed_session, transition,
}
use ev_charge_platform.Sessions.Progress.{read_session, load_session}
use ev_charge_platform.Sessions.Effects.{
  IsQuiet, IsSwitched, IsWritten, set_connector_status-IsSwitched, transition-eq-ok,
}
use ev_charge_platform.Sessions.Consistency.{IsMove}

abbrev pub Moves : {D : Type 0} → ChargingDb D → ChargingDb D → Type 0
Moves db db' = IsQuiet db db' ⊎ IsMove db db'

module _ {D : Type 0} where
  pub read_session-eq-ok :
      (id : ℕ) (db : ChargingDb D) {s : ChargingSession D} {d : ChargingDb D}
      → read_session id db ≡ ok (s, d)
      → (find session_id_of s.id db.sessions ≡ some s) × (d ≡ db) × (s.id ≡ id)
  unfolding read_session
  read_session-eq-ok id db {s = s} h = elim (Option-cases (find session_id_of id db.sessions)) [
    | inl e ↦ cc (rw (read_session, e) at h)
    | inr (a, e) ↦
        let (same, d) = pure-eq-ok (rw (read_session, e) at h) in
        let n : s.id ≡ id =
          ap (λ (x : ChargingSession D). x.id) (sym same)
          ∙ find-column session_id_of id a db.sessions e in
        (ap (λ k. find session_id_of k db.sessions) n ∙ e ∙ ap (λ x. some x) same, d, n)
  ]

  pub load_session-eq-ok :
      (id user : ℕ) (db : ChargingDb D) {s : ChargingSession D} {d : ChargingDb D}
      → load_session id user db ≡ ok (s, d)
      → d ≡ db
  unfolding load_session
  load_session-eq-ok id user db h = ground arith

module _ {D : Type 0} ⦃f : Doubles D⦄ where
  -- A session that is written, and no connector.
  pub written-IsMove :
      (current : ChargingSession D) (target : SessionStatus) (db db' : ChargingDb D)
      → assert_charging_session_transition current.status target ≡ ok tt
      → IsWritten current target db db'
      → IsMove db db'
  unfolding changed_session
  written-IsMove current target db db' accepted w = record {
    id = current.id;
    row = w.row;
    change = changed_session target w.stored;
    switch = λ c. c;
    found = w.found;
    sessions = w.sessions;
    connectors = w.connectors ∙ sym (update-same connector_id_of w.row.connector_id db.connectors);
    next_id = w.next_id;
    keeps_id = λ s. refl;
    keeps_place = λ s. refl;
    keeps_connector = λ c. refl;
    accepted = rw w.same_status accepted;
    freeing = λ c free. inl free;
  }

  -- A session that is written behind its connector.
  pub switched-IsMove :
      (current : ChargingSession D) (target : SessionStatus) (status : ConnectorStatus)
      (a b c : ChargingDb D)
      → find session_id_of current.id a.sessions ≡ some current
      → assert_charging_session_transition current.status target ≡ ok tt
      → ((status == ConnectorStatus.available) ≡ false)
        ⊎ ((is_active_charging_session_state current.status ≡ true)
            × (is_active_charging_session_state target ≡ false))
      → IsSwitched current.connector_id status a b
      → IsWritten current target b c
      → IsMove a c
  unfolding changed_session
  switched-IsMove current target status a b c read accepted freeing s w =
      let e : some w.row ≡ some current =
        sym w.found ∙ ap (find session_id_of current.id) s.sessions ∙ read in
      let same : w.row ≡ current = ground arith in
      record {
        id = current.id;
        row = current;
        change = changed_session target w.stored;
        switch = with_connector_status status;
        found = read;
        sessions =
            w.sessions
            ∙ ap (update session_id_of current.id (changed_session target w.stored)) s.sessions;
        connectors = w.connectors ∙ s.connectors;
        next_id = w.next_id ∙ s.next_id;
        keeps_id = λ x. refl;
        keeps_place = λ x. refl;
        keeps_connector = λ x. refl;
        accepted = accepted;
        freeing = λ x free. elim freeing [ inl busy ↦ cc (free, busy) | inr over ↦ inr over ];
      }

  pub transition-Moves :
      (current : ChargingSession D) (target : SessionStatus) (user : AuthUser) (correlation : ℕ)
      (columns : SessionChange D) (db : ChargingDb D) {s : ChargingSession D} {db' : ChargingDb D}
      → transition current target user correlation columns db ≡ ok (s, db')
      → Moves db db'
  transition-Moves current target user correlation columns db {db' = db'} h =
      let (accepted, done) = transition-eq-ok current target user correlation columns db h in
      elim done [
        | inl (same, q) ↦ inl q
        | inr w ↦ inr (written-IsMove current target db db' accepted w)
      ]

  -- A connector that is set and a session that is moved behind it.
  pub switch_and_transition-Moves :
      (current : ChargingSession D) (target : SessionStatus) (status : ConnectorStatus)
      (user : AuthUser) (correlation : ℕ) (columns : SessionChange D) (a b : ChargingDb D)
      {u : Unit {0}} {s : ChargingSession D} {c : ChargingDb D}
      → find session_id_of current.id a.sessions ≡ some current
      → ((current.status == target) ≡ false)
      → ((status == ConnectorStatus.available) ≡ false)
        ⊎ ((is_active_charging_session_state current.status ≡ true)
            × (is_active_charging_session_state target ≡ false))
      → set_connector_status current.connector_id status a ≡ ok (u, b)
      → transition current target user correlation columns b ≡ ok (s, c)
      → IsMove a c
  switch_and_transition-Moves current target status user correlation columns a b {c = c} read
        elsewhere freeing first second =
      let (accepted, done) = transition-eq-ok current target user correlation columns b second in
      elim done [
        | inl (same, q) ↦ cc ((same_session_status_iff current.status target).1 same, elsewhere)
        | inr w ↦
            switched-IsMove current target status a b c read accepted freeing
              (set_connector_status-IsSwitched current.connector_id status a first) w
      ]
