-- ===== src/Sessions/Consistency.antt =====
-- Sessions and connectors agree: the connector of an active session is there and is not AVAILABLE,
-- and no two active sessions share one.
use mathlib.Core.Option
use ev_charge_platform.Prelude.{
  ℕ, ◌≤◌, ◌≡◌, refl, sym, ◌∙◌, ap, ◌⊎◌, inl, inr, nat_eq, nat_eq_iff, ℕ_eq, true, false, none, some,
  find, find-map, at_key, update, ◌==◌, ok, at_key-keeps, found-after, found-before, Bool-cases,
  arith, if◌then◌else◌,
}
use ev_charge_platform.Database.{
  SessionStatus, SessionStatus_eq, ConnectorStatus, ConnectorStatus_eq,
}
use ev_charge_platform.Charging.{
  assert_charging_session_transition, is_active_charging_session_state,
}
use ev_charge_platform.Sessions.Rows.{
  Connector, ChargingSession, ChargingDb, connector_id_of, session_id_of,
}
use ev_charge_platform.Sessions.Effects.{IsQuiet}

active-back :
    (s t : SessionStatus)
    → assert_charging_session_transition s t ≡ ok tt
    → is_active_charging_session_state t ≡ true
    → is_active_charging_session_state s ≡ true
unfolding assert_charging_session_transition is_active_charging_session_state
active-back s t h g = ground arith

module _ {D : Type 0} where
  abbrev pub IsActive : ChargingSession D → Type 0
  IsActive s = is_active_charging_session_state s.status ≡ true

  pub record IsConsistent (db : ChargingDb D) : Type 0 where
    pub held :
        (id : ℕ) (s : ChargingSession D)
        → find session_id_of id db.sessions ≡ some s
        → IsActive s
        → (c : Connector D) × (find connector_id_of s.connector_id db.connectors ≡ some c)
          × ((c.status == ConnectorStatus.available) ≡ false)
    pub alone :
        (a b : ℕ) (s t : ChargingSession D)
        → find session_id_of a db.sessions ≡ some s
        → find session_id_of b db.sessions ≡ some t
        → IsActive s
        → IsActive t
        → s.connector_id ≡ t.connector_id
        → a ≡ b
    pub unused : (id : ℕ) → db.next_id ≤ id → find session_id_of id db.sessions ≡ none

  -- One session has changed its status, and its connector may have changed with it: to AVAILABLE
  -- only as the session ends.
  pub record IsMove (db db' : ChargingDb D) : Type 0 where
    pub id : ℕ
    pub row : ChargingSession D
    pub change : ChargingSession D → ChargingSession D
    pub switch : Connector D → Connector D
    pub found : find session_id_of id db.sessions ≡ some row
    pub sessions : db'.sessions ≡ update session_id_of id change db.sessions
    pub connectors : db'.connectors ≡ update connector_id_of row.connector_id switch db.connectors
    pub next_id : db'.next_id ≡ db.next_id
    pub keeps_id : (s : ChargingSession D) → (change s).id ≡ s.id
    pub keeps_place : (s : ChargingSession D) → (change s).connector_id ≡ s.connector_id
    pub keeps_connector : (c : Connector D) → (switch c).id ≡ c.id
    pub accepted : assert_charging_session_transition row.status (change row).status ≡ ok tt
    pub freeing :
        (c : Connector D)
        → ((switch c).status == ConnectorStatus.available) ≡ true
        → ((c.status == ConnectorStatus.available) ≡ true)
          ⊎ ((is_active_charging_session_state row.status ≡ true)
              × (is_active_charging_session_state (change row).status ≡ false))

  module _ (db db' : ChargingDb D) (c : IsConsistent db) (m : IsMove db db') where
    one_row : (s : ChargingSession D) → find session_id_of m.id db.sessions ≡ some s → s ≡ m.row
    one_row s h = ground (arith, m.found)

    abbrev Freed : Type 0
    Freed =
        (is_active_charging_session_state m.row.status ≡ true)
        × (is_active_charging_session_state (m.change m.row).status ≡ false)

    -- The session behind a session.
    session_before :
        (id : ℕ) (s : ChargingSession D)
        → find session_id_of id db'.sessions ≡ some s
        → ((id ≡ m.id) × (s ≡ m.change m.row))
          ⊎ ((nat_eq id m.id ≡ false) × (find session_id_of id db.sessions ≡ some s))
    session_before id s h =
        let (old, was, e) =
          found-after session_id_of m.id m.change db.sessions m.keeps_id id (rw m.sessions at h) in
        elim e [
          | inl (here, made) ↦ inl (
            here,
            made
                ∙ ap m.change
                    (one_row old (ap (λ k. find session_id_of k db.sessions) (sym here) ∙ was)),
          )
          | inr (there, made) ↦ inr (there, rw made was)
        ]

    connector_after :
        (k : ℕ) (a : Connector D)
        → find connector_id_of k db.connectors ≡ some a
        → ((a.status == ConnectorStatus.available) ≡ false)
        → ((b : Connector D) × (find connector_id_of k db'.connectors ≡ some b)
            × ((b.status == ConnectorStatus.available) ≡ false))
          ⊎ ((k ≡ m.row.connector_id) × Freed)
    connector_after k a h busy =
        let found : find connector_id_of k db'.connectors
            ≡ some (if nat_eq k m.row.connector_id then m.switch a else a) =
          ap (find connector_id_of k) m.connectors
          ∙ found-before connector_id_of m.row.connector_id m.switch db.connectors m.keeps_connector
              k a h in
        elim (Bool-cases (nat_eq k m.row.connector_id)) [
          | inr there ↦ inl (a, rw there at found, busy)
          | inl here ↦ elim (Bool-cases ((m.switch a).status == ConnectorStatus.available)) [
            | inr still ↦ inl (m.switch a, rw here at found, still)
            | inl free ↦ elim (m.freeing a free) [
              | inl was ↦ cc (was, busy)
              | inr freed ↦ inr ((nat_eq_iff k m.row.connector_id).0 here, freed)
            ]
          ]
        ]

    IsActive-before :
        (id : ℕ) (s : ChargingSession D)
        → find session_id_of id db'.sessions ≡ some s
        → IsActive s
        → (old : ChargingSession D) × (find session_id_of id db.sessions ≡ some old)
          × IsActive old
          × (s.connector_id ≡ old.connector_id)
    IsActive-before id s h live = elim (session_before id s h) [
      | inl (here, made) ↦ (
        m.row,
        ap (λ k. find session_id_of k db.sessions) here ∙ m.found,
        active-back m.row.status (m.change m.row).status m.accepted (rw made at live),
        ap (λ (x : ChargingSession D). x.connector_id) made ∙ m.keeps_place m.row,
      )
      | inr (there, was) ↦ (s, was, live, refl)
    ]

    -- The session whose connector was freed is over, and no other was on that connector.
    not_freed :
        (id : ℕ) (s old : ChargingSession D)
        → find session_id_of id db'.sessions ≡ some s
        → IsActive s
        → find session_id_of id db.sessions ≡ some old
        → IsActive old
        → old.connector_id ≡ m.row.connector_id
        → ¬ Freed
    not_freed id s old h live was before place freed = elim (session_before id s h) [
      | inl (here, made) ↦ cc (rw made at live, freed.1)
      | inr (there, same) ↦
          let one = c.alone id m.id old m.row was m.found before freed.0 place in
          cc ((nat_eq_iff id m.id).1 one, there)
    ]

    pub move-IsConsistent : IsConsistent db'
    move-IsConsistent = record {
      held = λ id s h live.
          let (old, was, before, place) = IsActive-before id s h live in
          let (k, found, busy) = c.held id old was before in
          elim (connector_after old.connector_id k found busy) [
            | inl (b, there, still) ↦
                (b, ap (λ n. find connector_id_of n db'.connectors) place ∙ there, still)
            | inr (same, freed) ↦ absurd (not_freed id s old h live was before same freed)
          ];
      alone = λ a b s t hs ht ls lt same.
          let (s', ws, bs, ps) = IsActive-before a s hs ls in
          let (t', wt, bt, pt) = IsActive-before b t ht lt in
          c.alone a b s' t' ws wt bs bt (sym ps ∙ same ∙ pt);
      unused = λ id above.
          ap (find session_id_of id) m.sessions
          ∙ find-map session_id_of id (at_key session_id_of m.id m.change) db.sessions
              (at_key-keeps session_id_of m.id m.change m.keeps_id)
          ∙ ap (Option.map (at_key session_id_of m.id m.change))
              (c.unused id (rw m.next_id at above));
    }

  pub quiet-IsConsistent :
      (db db' : ChargingDb D) → IsConsistent db → IsQuiet db db' → IsConsistent db'
  quiet-IsConsistent db db' c q = record {
    held = λ id s h live.
        let (k, found, busy) = c.held id s (ap (find session_id_of id) (sym q.sessions) ∙ h) live in
        (k, ap (find connector_id_of s.connector_id) q.connectors ∙ found, busy);
    alone = λ a b s t hs ht.
        c.alone a b s t (ap (find session_id_of a) (sym q.sessions) ∙ hs)
          (ap (find session_id_of b) (sym q.sessions) ∙ ht);
    unused =
        λ id above. ap (find session_id_of id) q.sessions ∙ c.unused id (rw q.next_id at above);
  }
