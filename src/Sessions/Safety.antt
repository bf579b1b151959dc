-- ===== src/Sessions/Safety.antt =====
-- What holds after any transactions of the charging service, in any order.
use ev_charge_platform.Prelude.{
  ℕ, ◌+◌, ◌≡◌, refl, sym, ◌∙◌, ap, ◌⊎◌, inl, inr, nat_eq, nat_eq_iff, ℕ_eq, false, some, find, ◌==◌,
  ok, found-before, Bool-cases, arith,
}
use ev_charge_platform.Database.{SessionStatus, SessionStatus_eq, same_session_status_iff}
use ev_charge_platform.Charging.{assert_charging_session_transition}
use ev_charge_platform.Charging.Paths.{Run, here, change, Run-then}
use ev_charge_platform.Sessions.Tariffs.{Doubles}
use ev_charge_platform.Sessions.Rows.{ChargingSession, ChargingDb, session_id_of}
use ev_charge_platform.Sessions.Statements.{no_change}
use ev_charge_platform.Sessions.Steps.{Step, Reaches, unmoved, further}
use ev_charge_platform.Sessions.Consistency.{
  IsConsistent, IsMove, move-IsConsistent, quiet-IsConsistent,
}
use ev_charge_platform.Sessions.Arrivals.{IsArrival, arrival-IsConsistent, create_body-IsArrival}
use ev_charge_platform.Sessions.Moves.{Moves, transition-Moves}
use ev_charge_platform.Sessions.Transactions.{
  authorize_body-Moves, prepare_start-Moves, activate-Moves,
}
use ev_charge_platform.Sessions.Closings.{prepare_stop-Moves, complete_body-Moves}
use ev_charge_platform.Sessions.Interruptions.{
  fail_body-Moves, disconnect_body-Moves, sample_body-Moves,
}

one_change :
    (s t : SessionStatus) → assert_charging_session_transition s t ≡ ok tt → (n : ℕ) × Run n s t
one_change s t h = elim (Bool-cases (s == t)) [
  | inl same ↦ (0, rw ((same_session_status_iff s t).0 same) (here t))
  | inr other ↦ (1, change 0 s t t (λ e. cc ((same_session_status_iff s t).1 e, other)) h (here t))
]

module _ {D : Type 0} ⦃f : Doubles D⦄ where
  Step-cases : {db db' : ChargingDb D} → Step db db' → Moves db db' ⊎ IsArrival db db'
  Step-cases {db} (Step.created input user key correlation now h) =
      inr (create_body-IsArrival input user key correlation now db h)
  Step-cases {db} (Step.authorized id user correlation h) =
      inl (authorize_body-Moves id user correlation db h)
  Step-cases {db} (Step.prepared_start id user correlation h) =
      inl (prepare_start-Moves id user correlation db h)
  Step-cases {db} (Step.activated id user correlation accepted now h) =
      inl (activate-Moves id user correlation accepted now db h)
  Step-cases {db} (Step.prepared_stop id user correlation h) =
      inl (prepare_stop-Moves id user correlation db h)
  Step-cases {db} (Step.reported_stop known user correlation h) =
      inl (transition-Moves known SessionStatus.stopping user correlation no_change db h)
  Step-cases {db} (Step.completed id user correlation meter_stop now h) =
      inl (complete_body-Moves id user correlation meter_stop now db h)
  Step-cases {db} (Step.sampled id sample h) = inl (sample_body-Moves id sample db h)
  Step-cases {db} (Step.disconnected id user correlation reason h) =
      inl (disconnect_body-Moves id user correlation reason db h)
  Step-cases {db} (Step.failed id user correlation reason lost now h) =
      inl (fail_body-Moves id user correlation reason lost now db h)

  Step-IsConsistent : {db db' : ChargingDb D} → Step db db' → IsConsistent db → IsConsistent db'
  Step-IsConsistent {db} {db'} step c = elim (Step-cases step) [
    | inl (inl q) ↦ quiet-IsConsistent db db' c q
    | inl (inr m) ↦ move-IsConsistent db db' c m
    | inr a ↦ arrival-IsConsistent db db' c a
  ]

  -- Whatever transactions of the charging service follow one another, on any sessions and in any
  -- order: the connector of every active session stays there and not AVAILABLE, no two active
  -- sessions come to share a connector, and the next number stays unused.
  pub Reaches-IsConsistent :
      {db db' : ChargingDb D} → Reaches db db' → IsConsistent db → IsConsistent db'
  Reaches-IsConsistent (unmoved _) c = c
  Reaches-IsConsistent (further step rest) c = Reaches-IsConsistent rest (Step-IsConsistent step c)

  -- A later state of a session: on the same connector, some accepted changes of status on.
  pub record IsLater (s t : ChargingSession D) : Type 0 where
    pub changes : ℕ
    pub run : Run changes s.status t.status
    pub same_place : t.connector_id ≡ s.connector_id

  IsLater-refl : (s : ChargingSession D) → IsLater s s
  IsLater-refl s = record { changes = 0; run = here s.status; same_place = refl }

  IsLater-through : {s t u : ChargingSession D} → IsLater s t → IsLater t u → IsLater s u
  IsLater-through p q = record {
    changes = p.changes + q.changes;
    run = Run-then p.run q.run;
    same_place = q.same_place ∙ p.same_place;
  }

  abbrev Follows : ChargingDb D → ℕ → ChargingSession D → Type 0
  Follows db' id s =
      (t : ChargingSession D) × (find session_id_of id db'.sessions ≡ some t) × IsLater s t

  move-Follows :
      {db db' : ChargingDb D} (m : IsMove db db') (id : ℕ) (s : ChargingSession D)
      → find session_id_of id db.sessions ≡ some s
      → Follows db' id s
  move-Follows {db} m id s h =
      let found =
        ap (find session_id_of id) m.sessions
        ∙ found-before session_id_of m.id m.change db.sessions m.keeps_id id s h in
      elim (Bool-cases (nat_eq id m.id)) [
        | inr other ↦ (s, found ∙ rw other refl, IsLater-refl s)
        | inl same ↦
            let e : some s ≡ some m.row =
              sym h
              ∙ ap (λ k. find session_id_of k db.sessions) ((nat_eq_iff id m.id).0 same)
              ∙ m.found in
            let it : s ≡ m.row = ground arith in
            let (n, run) = one_change m.row.status (m.change m.row).status m.accepted in
            (
              m.change s,
              found ∙ rw same refl,
              rw it (record { changes = n; run = run; same_place = m.keeps_place m.row }),
            )
      ]

  Step-Follows :
      {db db' : ChargingDb D}
      → Step db db'
      → IsConsistent db
      → (id : ℕ) (s : ChargingSession D) → find session_id_of id db.sessions ≡ some s
      → Follows db' id s
  Step-Follows {db} {db'} step c id s h = elim (Step-cases step) [
    | inl (inl q) ↦ (s, ap (find session_id_of id) q.sessions ∙ h, IsLater-refl s)
    | inl (inr m) ↦ move-Follows m id s h
    | inr a ↦
        let free = c.unused db.next_id (omega arith) in
        let other : nat_eq a.session.id id ≡ false = elim (Bool-cases (nat_eq a.session.id id)) [
          | inr e ↦ e
          | inl e ↦ cc (
            h,
            ap (λ k. find session_id_of k db.sessions)
                (sym ((nat_eq_iff a.session.id id).0 e) ∙ a.numbered),
            free,
          )
        ] in
        (s, ap (find session_id_of id) a.sessions ∙ rw other h, IsLater-refl s)
  ]

  -- A session never disappears: after any transactions of the service it is found under its number,
  -- on the same connector, and its status is the old one or one that accepted changes lead to.
  pub Reaches-Follows :
      {db db' : ChargingDb D}
      → Reaches db db'
      → IsConsistent db
      → (id : ℕ) (s : ChargingSession D) → find session_id_of id db.sessions ≡ some s
      → (t : ChargingSession D) × (find session_id_of id db'.sessions ≡ some t) × IsLater s t
  Reaches-Follows (unmoved _) c id s h = (s, h, IsLater-refl s)
  Reaches-Follows (further step rest) c id s h =
      let (t, found, later) = Step-Follows step c id s h in
      let (u, there, more) = Reaches-Follows rest (Step-IsConsistent step c) id t found in
      (u, there, IsLater-through later more)
