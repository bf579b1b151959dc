-- ===== src/Sessions/Arrivals.antt =====
-- A session that is created finds its connector free and takes it.
use ev_charge_platform.Prelude.{
  ℕ, suc, ◌≤◌, ◌≡◌, ◌≢◌, refl, sym, ◌∙◌, ap, ◌⊎◌, inl, inr, nat_eq, nat_eq_iff, ℕ_eq, String, true,
  false, some, ◌∷◌, any, find, update, ◌==◌, ok, found-before, Bool-cases, Option-cases, >>=-then,
  pure-eq-ok, arith, if◌then◌else◌,
}
use ev_charge_platform.Database.{AuthUser, ConnectorStatus, ConnectorStatus_eq}
use ev_charge_platform.Sessions.Tariffs.{Doubles}
use ev_charge_platform.Sessions.Rows.{
  Connector, Vehicle, Tariff, ChargingSession, ChargingDb, connector_id_of, session_id_of,
}
use ev_charge_platform.Sessions.Statements.{write_audit, publish, with_connector_status}
use ev_charge_platform.Sessions.Creation.{
  CreateChargingSession, find_vehicle, find_connector, find_tariff, reserve_connector,
  session_clashes, insert_session, new_session, create_at, create_on, create_body,
}
use ev_charge_platform.Sessions.Effects.{IsQuiet}
use ev_charge_platform.Sessions.Consistency.{IsActive, IsConsistent}

-- The tables with one more session, whose connector was AVAILABLE and is RESERVED.
pub record IsArrival {D : Type 0} (db db' : ChargingDb D) : Type 0 where
  pub session : ChargingSession D
  pub row : Connector D
  pub found : find connector_id_of session.connector_id db.connectors ≡ some row
  pub free : (row.status == ConnectorStatus.available) ≡ true
  pub numbered : session.id ≡ db.next_id
  pub sessions : db'.sessions ≡ session ∷ db.sessions
  pub connectors :
      db'.connectors
      ≡ update connector_id_of session.connector_id
          (with_connector_status ConnectorStatus.reserved)
          db.connectors
  pub next_id : db'.next_id ≡ suc db.next_id

module _ {D : Type 0} (db db' : ChargingDb D) (c : IsConsistent db) (m : IsArrival db db') where
  session_found :
      (id : ℕ) (s : ChargingSession D)
      → find session_id_of id db'.sessions ≡ some s
      → ((id ≡ db.next_id) × (s ≡ m.session)) ⊎ (find session_id_of id db.sessions ≡ some s)
  session_found id s h =
      let g : find session_id_of id (m.session ∷ db.sessions) ≡ some s =
        ap (find session_id_of id) (sym m.sessions) ∙ h in
      elim (Bool-cases (nat_eq m.session.id id)) [
        | inl new ↦ inl (
          sym ((nat_eq_iff m.session.id id).0 new) ∙ m.numbered,
          (let e : some m.session ≡ some s = rw new at g in ground arith),
        )
        | inr old ↦ inr (rw old at g)
      ]

  -- No active session was on the connector.
  nobody_there :
      (id : ℕ) (s : ChargingSession D)
      → find session_id_of id db.sessions ≡ some s
      → IsActive s
      → s.connector_id ≢ m.session.connector_id
  nobody_there id s h live same =
      let (k, found, busy) = c.held id s h live in
      let e : some k ≡ some m.row =
        sym found ∙ ap (λ n. find connector_id_of n db.connectors) same ∙ m.found in
      let e' : k ≡ m.row = ground arith in cc (e', busy, m.free)

  kept_or_reserved :
      (k : ℕ) (a : Connector D)
      → find connector_id_of k db.connectors ≡ some a
      → find connector_id_of k db'.connectors
        ≡ some (
            if nat_eq k m.session.connector_id
            then with_connector_status ConnectorStatus.reserved a
            else a)
  kept_or_reserved k a h =
      ap (find connector_id_of k) m.connectors
      ∙ found-before connector_id_of m.session.connector_id
          (with_connector_status ConnectorStatus.reserved) db.connectors (λ x. refl) k a h

  pub arrival-IsConsistent : IsConsistent db'
  arrival-IsConsistent = record {
    held = λ id s h live. elim (session_found id s h) [
      | inl (new, made) ↦ (
        with_connector_status ConnectorStatus.reserved m.row,
        ap (λ (x : ChargingSession D). find connector_id_of x.connector_id db'.connectors) made
            ∙ kept_or_reserved m.session.connector_id m.row m.found
            ∙ rw ((nat_eq_iff m.session.connector_id m.session.connector_id).1 refl) refl,
        refl,
      )
      | inr was ↦
          let (k, found, busy) = c.held id s was live in
          elim (Bool-cases (nat_eq s.connector_id m.session.connector_id)) [
            | inl same ↦ absurd (
                nobody_there id s was live
                  ((nat_eq_iff s.connector_id m.session.connector_id).0 same))
            | inr other ↦ (k, kept_or_reserved s.connector_id k found ∙ rw other refl, busy)
          ]
    ];
    alone = λ a b s t hs ht ls lt same. elim (session_found a s hs) [
      | inl (na, ma) ↦ elim (session_found b t ht) [
        | inl (nb, mb) ↦ na ∙ sym nb
        | inr wb ↦
            absurd (
              nobody_there b t wb lt (sym same ∙ ap (λ (x : ChargingSession D). x.connector_id) ma))
      ]
      | inr wa ↦ elim (session_found b t ht) [
        | inl (nb, mb) ↦
            absurd
              (nobody_there a s wa ls (same ∙ ap (λ (x : ChargingSession D). x.connector_id) mb))
        | inr wb ↦ c.alone a b s t wa wb ls lt same
      ]
    ];
    unused = λ id above.
        let later : suc db.next_id ≤ id = rw m.next_id at above in
        let other : nat_eq m.session.id id ≡ false =
          ground (arith, m.numbered, nat_eq_iff m.session.id id) in
        ap (find session_id_of id) m.sessions ∙ rw other (c.unused id (omega (arith, later)));
  }

module _ {D : Type 0} where
  -- The connector that `updateMany` has reserved was AVAILABLE.
  reserve_connector-eq-ok :
      (k : Connector D) (db : ChargingDb D) {u : Unit {0}} {db' : ChargingDb D}
      → reserve_connector k db ≡ ok (u, db')
      → (row : Connector D) × (find connector_id_of k.id db.connectors ≡ some row)
        × ((row.status == ConnectorStatus.available) ≡ true)
        × (db'.sessions ≡ db.sessions)
        × (db'.next_id ≡ db.next_id)
        × (db'.connectors
            ≡ update connector_id_of k.id
                (with_connector_status ConnectorStatus.reserved)
                db.connectors)
  unfolding reserve_connector
  reserve_connector-eq-ok k db h = elim (Option-cases (find connector_id_of k.id db.connectors)) [
    | inl e ↦ cc (rw (reserve_connector, e) at h)
    | inr (row, e) ↦ elim (Bool-cases (row.status == ConnectorStatus.available)) [
      | inr busy ↦ cc (rw (reserve_connector, e, busy) at h)
      | inl free ↦ elim (Bool-cases (nat_eq row.version k.version)) [
        | inr changed ↦ cc (rw (reserve_connector, e, free, changed) at h)
        | inl same ↦
            let g = (pure-eq-ok (rw (reserve_connector, e, free, same) at h)).1 in
            (row, e, free, ap (λ d. d.sessions) g, ap (λ d. d.next_id) g, ap (λ d. d.connectors) g)
      ]
    ]
  ]

  insert_session-eq-ok :
      (new : ChargingSession D) (db : ChargingDb D) {s : ChargingSession D} {db' : ChargingDb D}
      → insert_session new db ≡ ok (s, db')
      → (s ≡ new)
        × (db'.sessions ≡ new ∷ db.sessions)
        × (db'.next_id ≡ suc db.next_id)
        × (db'.connectors ≡ db.connectors)
  unfolding insert_session
  insert_session-eq-ok new db h = elim (Bool-cases (any (session_clashes new) db.sessions)) [
    | inl clash ↦ cc (rw (insert_session, clash) at h)
    | inr none_there ↦
        let (e, g) = pure-eq-ok (rw (insert_session, none_there) at h) in
        (sym e, ap (λ d. d.sessions) g, ap (λ d. d.next_id) g, ap (λ d. d.connectors) g)
  ]

module _ {D : Type 0} ⦃f : Doubles D⦄ where
  create_at-IsArrival :
      (k : Connector D) (vehicle : Vehicle D) (tariff : Tariff D) (user : AuthUser) (key : String)
      (correlation now : ℕ) (db : ChargingDb D) {s : ChargingSession D} {db' : ChargingDb D}
      → create_at k vehicle tariff user key correlation now db ≡ ok (s, db')
      → IsArrival db db'
  unfolding create_at write_audit publish
  create_at-IsArrival k vehicle tariff user key correlation now db {db' = db'} h =
      >>=-then (reserve_connector k) _ db h λ v d1 h1 r1.
        >>=-then (λ d. insert_session (new_session k vehicle tariff user key now d.next_id) d) _ d1
          r1
          λ made d2 h2 r2.
            let new = new_session k vehicle tariff user key now d1.next_id in
            let (row, there, free, ss, ns, cs) = reserve_connector-eq-ok k db h1 in
            let (e, ss', ns', cs') = insert_session-eq-ok new d1 h2 in
            let q : IsQuiet d2 db' = ground arith in
            record {
              session = new;
              row = row;
              found = there;
              free = free;
              numbered = ns;
              sessions = q.sessions ∙ ss' ∙ ap (λ xs. new ∷ xs) ss;
              connectors = q.connectors ∙ cs' ∙ cs;
              next_id = q.next_id ∙ ns' ∙ ap suc ns;
            }

  create_on-IsArrival :
      (k : Connector D) (vehicle : Vehicle D) (user : AuthUser) (key : String) (correlation now : ℕ)
      (db : ChargingDb D) {s : ChargingSession D} {db' : ChargingDb D}
      → create_on k vehicle user key correlation now db ≡ ok (s, db')
      → IsArrival db db'
  unfolding create_on
  create_on-IsArrival k vehicle user key correlation now db h =
      elim (Bool-cases (k.status == ConnectorStatus.available)) [
        | inr busy ↦ cc (rw (create_on, busy) at h)
        | inl free ↦ elim (Option-cases (find_tariff k.station_id now db.tariffs)) [
          | inl e ↦ cc (rw (create_on, free, e) at h)
          | inr (tariff, e) ↦
              create_at-IsArrival k vehicle tariff user key correlation now db
                (rw (create_on, free, e) at h)
        ]
      ]

  pub create_body-IsArrival :
      (input : CreateChargingSession) (user : AuthUser) (key : String) (correlation now : ℕ)
      (db : ChargingDb D) {s : ChargingSession D} {db' : ChargingDb D}
      → create_body input user key correlation now db ≡ ok (s, db')
      → IsArrival db db'
  unfolding create_body
  create_body-IsArrival input user key correlation now db h =
      elim (Option-cases (find_vehicle input.vehicle_id user.sub db.vehicles)) [
        | inl e ↦ cc (rw (create_body, e) at h)
        | inr (vehicle, e) ↦
            elim (Option-cases (find_connector input.connector_id user.tenant_id db)) [
              | inl e' ↦ cc (rw (create_body, e, e') at h)
              | inr (k, e') ↦
                  create_on-IsArrival k vehicle user key correlation now db
                    (rw (create_body, e, e') at h)
            ]
      ]
