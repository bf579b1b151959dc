-- ===== src/Intents/Arrival.antt =====
-- When `transition` returns a payment, and in which status.
use ev_charge_platform.Prelude.{
  Option, Option-cases, ℕ, ◌≡◌, refl, sym, ap, ◌∙◌, ◌⊎◌, constraint_violation, Bool, false, err,
  inl, inr, nat_eq_iff, ℕ_eq, String, ◌==◌, true, some, List, find, find-map, find-column, update,
  Result, ok, Bool-cases, arith,
}
use ev_charge_platform.Database.{AuthUser, IntentStatus, IntentStatus_eq, same_intent_status_iff}
use ev_charge_platform.Intents.{assert_payment_intent_transition}
use ev_charge_platform.Intents.Service.{
  PaymentIntent, IntentDb, IntentChange, intent_id_of, moved_to_status, find_intent,
  unchanged_since, breaks_intent_check, update_intent, record_change, lost_race, after_update,
  write_status, payment_event, transition,
}
use ev_charge_platform.Intents.Locking.{accepts, step_at, step_at-id}

find_intent_lem :
    (id : ℕ) (user : AuthUser) (rows : List PaymentIntent) {i : PaymentIntent}
    → find_intent id user rows ≡ some i
    → (find intent_id_of id rows ≡ some i) × (i.id ≡ id)
unfolding find_intent
find_intent_lem id user rows {i} h = ground (arith, find-column intent_id_of id i rows)

still : (i : PaymentIntent) → unchanged_since i i ≡ true
still i = ground (arith, same_intent_status_iff i.status i.status, nat_eq_iff i.version i.version)

moved_status :
    (target : IntentStatus) (columns : IntentChange) (i : PaymentIntent)
    → (moved_to_status target columns i).status ≡ target
unfolding moved_to_status
moved_status target columns i = refl

moved_found :
    (target : IntentStatus) (columns : IntentChange) (i : PaymentIntent)
    → assert_payment_intent_transition i.status target ≡ ok tt
    → (id : ℕ) (rows : List PaymentIntent) → find intent_id_of id rows ≡ some i
    → i.id ≡ id
    → find intent_id_of id (update intent_id_of i.id (moved_to_status target columns) rows)
      ≡ some (moved_to_status target columns i)
moved_found target columns i accepted id rows h same =
    find-map intent_id_of id (step_at target columns i accepted) rows
      (step_at-id target columns i accepted)
    ∙ rw (h, (nat_eq_iff i.id i.id).1 refl) refl

-- What `updateMany` leaves of a row that nobody has touched.
abbrev pub moved_db : PaymentIntent → IntentStatus → IntentChange → IntentDb → IntentDb
moved_db current target columns db = record db {
  intents = update intent_id_of current.id (moved_to_status target columns) db.intents;
}

update_intent-moves :
    (current : PaymentIntent) (target : IntentStatus) (columns : IntentChange) (db : IntentDb)
    → find intent_id_of current.id db.intents ≡ some current
    → breaks_intent_check (moved_to_status target columns current) ≡ false
    → update_intent current target columns db ≡ (ok true, moved_db current target columns db)
unfolding update_intent
update_intent-moves current target columns db here passes =
    rw (update_intent, here, still current, passes) refl

record_change-finds :
    (user : AuthUser) (name : String) (id : ℕ) (db : IntentDb) (i : PaymentIntent)
    → find intent_id_of id db.intents ≡ some i
    → (db' : IntentDb) × (record_change id user name db ≡ (ok i, db')) × (db'.intents ≡ db.intents)
unfolding record_change
record_change-finds user name id db i h =
    ((record_change id user name db).1, rw (record_change, h) refl, rw (record_change, h) refl)

-- A transition that is not disturbed, from another status.
pub transition-moves :
    (id : ℕ) (target : IntentStatus) (user : AuthUser) (columns : IntentChange) (db : IntentDb)
    (current : PaymentIntent)
    → find_intent id user db.intents ≡ some current
    → assert_payment_intent_transition current.status target ≡ ok tt
    → (current.status == target) ≡ false
    → breaks_intent_check (moved_to_status target columns current) ≡ false
    → (db' : IntentDb) × (transition (λ n d. d) id target user columns db
        ≡ (ok (moved_to_status target columns current), db'))
      × (find intent_id_of id db'.intents ≡ some (moved_to_status target columns current))
unfolding transition write_status
transition-moves id target user columns db current found accepted elsewhere passes =
    let (row, same) = find_intent_lem id user db.intents found in
    let here : find intent_id_of current.id db.intents ≡ some current =
      ap (λ n. find intent_id_of n db.intents) same ∙ row in
    let there = moved_found target columns current accepted id db.intents row same in
    let (db', runs, rows) =
      record_change-finds user (payment_event target) current.id
        (moved_db current target columns db) (moved_to_status target columns current)
        (ap (λ n. find intent_id_of n (moved_db current target columns db).intents) same ∙ there) in
    (
      db',
      rw (transition, found, accepted, elsewhere)
          (ap (after_update (λ d. d) current target user (payment_event target))
              (update_intent-moves current target columns db here passes)
            ∙ runs),
      ap (find intent_id_of id) rows ∙ there,
    )

-- A call of `transition` that is not disturbed, whose step is accepted and whose columns pass the
-- checks of the table returns the row of the caller in the target status and leaves it under its
-- number.
pub transition-succeeds :
    (id : ℕ) (target : IntentStatus) (user : AuthUser) (columns : IntentChange) (db : IntentDb)
    (current : PaymentIntent)
    → find_intent id user db.intents ≡ some current
    → assert_payment_intent_transition current.status target ≡ ok tt
    → breaks_intent_check (moved_to_status target columns current) ≡ false
    → (i : PaymentIntent) × (db' : IntentDb) × (transition (λ n d. d) id target user columns db
        ≡ (ok i, db'))
      × (i.status ≡ target)
      × (find intent_id_of id db'.intents ≡ some i)
unfolding transition
transition-succeeds id target user columns db current found accepted passes =
    elim (Bool-cases (current.status == target)) [
      | inl there ↦ (
        current,
        db,
        rw (transition, found, accepted, there) refl,
        (same_intent_status_iff current.status target).0 there,
        (find_intent_lem id user db.intents found).0,
      )
      | inr elsewhere ↦
          let (db', runs, stored) =
            transition-moves id target user columns db current found accepted elsewhere passes in
          (
            moved_to_status target columns current,
            db',
            runs,
            moved_status target columns current,
            stored,
          )
    ]

abbrev told : Result Bool × IntentDb → Result Bool
told p = p.0

abbrev outcome_of : Result PaymentIntent × IntentDb → Result PaymentIntent
outcome_of p = p.0

abbrev pure_row : PaymentIntent → Result PaymentIntent
pure_row a = ok a

returned_status :
    {a i : PaymentIntent} {target : IntentStatus}
    → pure_row a ≡ ok i
    → a.status ≡ target
    → i.status ≡ target
returned_status h e = ground (arith, e)

record_change-returns :
    (id : ℕ) (user : AuthUser) (name : String) (db : IntentDb) {i : PaymentIntent} {db' : IntentDb}
    → record_change id user name db ≡ (ok i, db')
    → find intent_id_of id db.intents ≡ some i
unfolding record_change
record_change-returns id user name db h = elim (Option-cases (find intent_id_of id db.intents)) [
  | inl e ↦ cc (ap outcome_of (rw (record_change, e) at h))
  | inr (row, e) ↦ e ∙ (ground (arith, ap outcome_of (rw (record_change, e) at h)))
]

lost_race-arrives :
    (id : ℕ) (target : IntentStatus) (db : IntentDb) {i : PaymentIntent} {db' : IntentDb}
    → lost_race id target db ≡ (ok i, db')
    → i.status ≡ target
unfolding lost_race
lost_race-arrives id target db h = elim (Option-cases (find intent_id_of id db.intents)) [
  | inl e ↦ cc (ap outcome_of (rw (lost_race, e) at h))
  | inr (row, e) ↦ elim (Bool-cases (row.status == target)) [
    | inl there ↦
        returned_status (ap outcome_of (rw (lost_race, e, there) at h))
          ((same_intent_status_iff row.status target).0 there)
    | inr elsewhere ↦ cc (ap outcome_of (rw (lost_race, e, elsewhere) at h))
  ]
]

update_intent-cases :
    (current : PaymentIntent) (target : IntentStatus) (columns : IntentChange) (db : IntentDb)
    → ((update_intent current target columns db).0 ≡ ok false)
      ⊎ (((update_intent current target columns db).0 ≡ err constraint_violation)
          ⊎ ((row : PaymentIntent) × (find intent_id_of current.id db.intents ≡ some row)
              × (update_intent current target columns db
                  ≡ (ok true, moved_db current target columns db))))
unfolding update_intent
update_intent-cases current target columns db =
    elim (Option-cases (find intent_id_of current.id db.intents)) [
      | inl e ↦ inl (rw (update_intent, e) refl)
      | inr (row, e) ↦ elim (Bool-cases (unchanged_since current row)) [
        | inr other ↦ inl (rw (update_intent, e, other) refl)
        | inl same ↦ elim (Bool-cases (breaks_intent_check (moved_to_status target columns row))) [
          | inl breaks ↦ inr (inl (rw (update_intent, e, same, breaks) refl))
          | inr passes ↦ inr (inr (row, e, rw (update_intent, e, same, passes) refl))
        ]
      ]
    ]

-- The row of `current`'s number that a write has left.
update_intent-written :
    (current : PaymentIntent) (target : IntentStatus) (columns : IntentChange) (db : IntentDb)
    {d : IntentDb}
    → assert_payment_intent_transition current.status target ≡ ok tt
    → update_intent current target columns db ≡ (ok true, d)
    → (row : PaymentIntent) × (find intent_id_of current.id d.intents
        ≡ some (moved_to_status target columns row))
update_intent-written current target columns db accepted h =
    elim (update_intent-cases current target columns db) [
      | inl e ↦ cc (e, ap told h)
      | inr (inl e) ↦ cc (e, ap told h)
      | inr (inr (row, e, g)) ↦
          let own =
            (nat_eq_iff row.id current.id).1
              (find-column intent_id_of current.id row db.intents e) in
          (
            row,
            ap (λ (p : Result Bool × IntentDb). find intent_id_of current.id p.1.intents)
                  (sym h ∙ g)
                ∙ find-map intent_id_of current.id (step_at target columns current accepted)
                    db.intents (step_at-id target columns current accepted)
                ∙ rw (e) (rw own refl),
          )
    ]

found_status :
    {a i : PaymentIntent} {target : IntentStatus} {o : Option PaymentIntent}
    → o ≡ some i
    → o ≡ some a
    → a.status ≡ target
    → i.status ≡ target
found_status h k e = ground (arith, sym h ∙ k, e)

-- What follows the write, by what it has told.
after_update-arrives :
    (between : IntentDb → IntentDb) (current : PaymentIntent) (target : IntentStatus)
    (user : AuthUser) (name : String) (p : Result Bool × IntentDb) {i : PaymentIntent}
    {db' : IntentDb}
    → ((d : IntentDb) → between d ≡ d)
    → ((d : IntentDb)
        → p ≡ (ok true, d)
        → (row : PaymentIntent) × (find intent_id_of current.id d.intents ≡ some row)
          × (row.status ≡ target))
    → after_update between current target user name p ≡ (ok i, db')
    → i.status ≡ target
after_update-arrives between current target user name (err x, db) quiet wrote h =
    cc (ap outcome_of h)
after_update-arrives between current target user name (ok true, db) quiet wrote h =
    let (row, there, status) = wrote db refl in
    found_status (record_change-returns current.id user name (between db) h)
      (ap (λ (d : IntentDb). find intent_id_of current.id d.intents) (quiet db) ∙ there) status
after_update-arrives between current target user name (ok false, db) quiet wrote h =
    lost_race-arrives current.id target (between db) h

write_status-arrives :
    (between : IntentDb → IntentDb) (current : PaymentIntent) (target : IntentStatus)
    (user : AuthUser) (columns : IntentChange) (name : String) (db : IntentDb) {i : PaymentIntent}
    {db' : IntentDb}
    → ((d : IntentDb) → between d ≡ d)
    → assert_payment_intent_transition current.status target ≡ ok tt
    → write_status between current target user columns name db ≡ (ok i, db')
    → i.status ≡ target
unfolding write_status
write_status-arrives between current target user columns name db quiet accepted h =
    after_update-arrives between current target user name (update_intent current target columns db)
      quiet
      (λ d wrote.
        let (row, there) = update_intent-written current target columns db accepted wrote in
        (moved_to_status target columns row, there, moved_status target columns row))
      h

transition-refused :
    (id : ℕ) (target : IntentStatus) (user : AuthUser) (columns : IntentChange) (db : IntentDb)
    (current : PaymentIntent)
    → find_intent id user db.intents ≡ some current
    → assert_payment_intent_transition current.status target ≡ ok tt
    → (current.status == target) ≡ false
    → breaks_intent_check (moved_to_status target columns current) ≡ true
    → (transition (λ n d. d) id target user columns db).0 ≡ err constraint_violation
unfolding transition write_status update_intent
transition-refused id target user columns db current found accepted elsewhere breaks =
    let (row, same) = find_intent_lem id user db.intents found in
    let here : find intent_id_of current.id db.intents ≡ some current =
      ap (λ n. find intent_id_of n db.intents) same ∙ row in
    rw (transition, found, accepted, elsewhere, update_intent, here, still current, breaks) refl

abbrev with_db : PaymentIntent → IntentDb → Result PaymentIntent × IntentDb
with_db i d = (ok i, d)

ok_row : {a i : PaymentIntent} → pure_row i ≡ ok a → i ≡ a
ok_row h = ground (arith, h)

same_outcome :
    (id : ℕ) {a i : PaymentIntent} {d e : IntentDb}
    → with_db i e ≡ (ok a, d)
    → find intent_id_of id d.intents ≡ some a
    → (i ≡ a) × (find intent_id_of id e.intents ≡ some i)
same_outcome id h stored =
    let row = ok_row (ap (λ (p : Result PaymentIntent × IntentDb). p.0) h) in
    let rows = ap (λ (p : Result PaymentIntent × IntentDb). p.1.intents) h in
    (row, ap (find intent_id_of id) rows ∙ stored ∙ ap (λ i. some i) (sym row))

-- What a transition that nobody disturbs, from another status, has returned: it is the row that it
-- has read, moved, and that stands in the table.
pub transition-returned :
    (between : ℕ → IntentDb → IntentDb) (id : ℕ) (target : IntentStatus) (user : AuthUser)
    (columns : IntentChange) (db : IntentDb) (current : PaymentIntent) {i : PaymentIntent}
    {db' : IntentDb}
    → between ≡ (λ n d. d)
    → find_intent id user db.intents ≡ some current
    → assert_payment_intent_transition current.status target ≡ ok tt
    → (current.status == target) ≡ false
    → transition between id target user columns db ≡ (ok i, db')
    → (i ≡ moved_to_status target columns current) × (find intent_id_of id db'.intents ≡ some i)
transition-returned between id target user columns db current quiet found accepted elsewhere h =
    let run = ap (λ b. transition b id target user columns db) (sym quiet) ∙ h in
    elim (Bool-cases (breaks_intent_check (moved_to_status target columns current))) [
      | inl breaks ↦ cc (
        transition-refused id target user columns db current found accepted elsewhere breaks,
        ap outcome_of run,
      )
      | inr passes ↦
          let (d, moves, stored) =
            transition-moves id target user columns db current found accepted elsewhere passes in
          same_outcome id (sym run ∙ moves) stored
    ]

-- When nobody writes between the write of a transition and the second reading, a transition that
-- returns a payment returns it in the target status, also when another call has brought it there.
pub transition-arrives :
    (between : ℕ → IntentDb → IntentDb) (id : ℕ) (target : IntentStatus) (user : AuthUser)
    (columns : IntentChange) (db : IntentDb) {i : PaymentIntent} {db' : IntentDb}
    → ((d : IntentDb) → between 1 d ≡ d)
    → transition between id target user columns db ≡ (ok i, db')
    → i.status ≡ target
unfolding transition
transition-arrives between id target user columns db quiet h =
    elim (Option-cases (find_intent id user db.intents)) [
      | inl e ↦ cc (ap outcome_of (rw (transition, e) at h))
      | inr (current, e) ↦ elim (accepts current.status target) [
        | inl agreed ↦ elim (Bool-cases (current.status == target)) [
          | inl there ↦
              returned_status (ap outcome_of (rw (transition, e, agreed, there) at h))
                ((same_intent_status_iff current.status target).0 there)
          | inr elsewhere ↦
              write_status-arrives (between 1) current target user columns (payment_event target)
                (between 0 db) quiet agreed (rw (transition, e, agreed, elsewhere) at h)
        ]
        | inr (x, refused) ↦ cc (ap outcome_of (rw (transition, e, refused) at h))
      ]
    ]
