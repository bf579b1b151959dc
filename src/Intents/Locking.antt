-- ===== src/Intents/Locking.antt =====
-- The optimistic lock: a row moves only along the state machine, from the status that was checked.
use ev_charge_platform.Prelude.{
  map-eq-some, Option-cases, ℕ, ◌+◌, ◌≡◌, refl, sym, Bool, false, ◌∙◌, ◌⊎◌, inl, inr, nat_eq,
  nat_eq_iff, ℕ_eq, String, ◌==◌, true, some, List, find, find-map, find-column, update, at_key,
  Failure, Result, ok, err, Bool-cases, arith,
}
use ev_charge_platform.Database.{AuthUser, IntentStatus, IntentStatus_eq, same_intent_status_iff}
use ev_charge_platform.Intents.{assert_payment_intent_transition}
use ev_charge_platform.Intents.Service.{
  PaymentIntent, IntentDb, IntentChange, intent_id_of, moved_to_status, find_intent,
  unchanged_since, breaks_intent_check, update_intent, record_change, lost_race, after_update,
  write_status, payment_event, transition,
}

-- A row that was as `read` has made one accepted step, under the next version.
pub record IsStep (read before after : PaymentIntent) : Type 0 where
  pub same_row : before.id ≡ read.id
  pub same_version : before.version ≡ read.version
  pub accepted : assert_payment_intent_transition before.status after.status ≡ ok tt
  pub next_version : after.version ≡ before.version + 1

-- Every row of the second table is a row of the first, as it was or, if it was as `read`, one step on.
abbrev pub RowsFollow : PaymentIntent → List PaymentIntent → List PaymentIntent → Type 0
RowsFollow read olds news =
    (id : ℕ) (i : PaymentIntent)
    → find intent_id_of id news ≡ some i
    → (old : PaymentIntent) × (find intent_id_of id olds ≡ some old)
      × ((i ≡ old) ⊎ IsStep read old i)

RowsFollow-refl : (read : PaymentIntent) (rows : List PaymentIntent) → RowsFollow read rows rows
RowsFollow-refl read rows id i h = (i, h, inl refl)

Result-cases : (r : Result (Unit {0})) → (r ≡ ok tt) ⊎ ((x : Failure) × (r ≡ err x))
Result-cases (ok tt) = inl refl
Result-cases (err x) = inr (x, refl)

module _ (target : IntentStatus) (columns : IntentChange) (current : PaymentIntent)
    (accepted : assert_payment_intent_transition current.status target ≡ ok tt) where
  abbrev pub step_at : PaymentIntent → PaymentIntent
  step_at = at_key intent_id_of current.id (moved_to_status target columns)

  moved_row-IsStep :
      (row : PaymentIntent)
      → nat_eq row.id current.id ≡ true
      → unchanged_since current row ≡ true
      → IsStep current row (moved_to_status target columns row)
  unfolding moved_to_status
  moved_row-IsStep row here h =
      let e : row.status ≡ current.status =
        ground (arith, same_intent_status_iff row.status current.status) in
      record {
        same_row = (nat_eq_iff row.id current.id).0 here;
        same_version = (nat_eq_iff row.version current.version).0 (ground arith);
        accepted = rw e accepted;
        next_version = refl;
      }

  step_at-here :
      (row : PaymentIntent)
      → nat_eq row.id current.id ≡ true
      → unchanged_since current row ≡ true
      → (step_at row ≡ row) ⊎ IsStep current row (step_at row)
  step_at-here row e h = inr (rw e (moved_row-IsStep row e h))

  step_at-IsStep :
      (rows : List PaymentIntent) (row : PaymentIntent)
      → find intent_id_of current.id rows ≡ some row
      → unchanged_since current row ≡ true
      → (id : ℕ) (old : PaymentIntent) → find intent_id_of id rows ≡ some old
      → (step_at old ≡ old) ⊎ IsStep current old (step_at old)
  step_at-IsStep rows row found same id old h = elim (Bool-cases (nat_eq old.id current.id)) [
    | inl e ↦
        let one : row ≡ old =
          ground (arith, find-column intent_id_of id old rows h, nat_eq_iff old.id current.id) in
        step_at-here old e (rw one at same)
    | inr e ↦ inl (rw e refl)
  ]

  pub step_at-id : (i : PaymentIntent) → (step_at i).id ≡ i.id
  unfolding moved_to_status
  step_at-id i = ground arith

  update-RowsFollow :
      (rows : List PaymentIntent) (row : PaymentIntent)
      → find intent_id_of current.id rows ≡ some row
      → unchanged_since current row ≡ true
      → RowsFollow current rows
          (update intent_id_of current.id (moved_to_status target columns) rows)
  update-RowsFollow rows row found same id i h =
      let (old, was, e) =
        map-eq-some step_at (find intent_id_of id rows)
          (sym (find-map intent_id_of id step_at rows step_at-id) ∙ h) in
      (old, was, rw (e) (step_at-IsStep rows row found same id old was))

  update_intent-RowsFollow :
      (db : IntentDb)
      → RowsFollow current db.intents (update_intent current target columns db).1.intents
  unfolding update_intent
  update_intent-RowsFollow db = elim (Option-cases (find intent_id_of current.id db.intents)) [
    | inl h ↦ rw (update_intent, h) (RowsFollow-refl current db.intents)
    | inr (row, h) ↦ elim (Bool-cases (unchanged_since current row)) [
      | inr other ↦ rw (update_intent, h, other) (RowsFollow-refl current db.intents)
      | inl same ↦ elim (Bool-cases (breaks_intent_check (moved_to_status target columns row))) [
        | inl breaks ↦ rw (update_intent, h, same, breaks) (RowsFollow-refl current db.intents)
        | inr passes ↦ rw (update_intent, h, same, passes) (update-RowsFollow db.intents row h same)
      ]
    ]
  ]

-- What follows the write leaves the rows as others have left them.
module _ (between : IntentDb → IntentDb) (current : PaymentIntent) (target : IntentStatus)
    (user : AuthUser) (name : String) where
  record_change-intents :
      (db : IntentDb) → (record_change current.id user name db).1.intents ≡ db.intents
  unfolding record_change
  record_change-intents db = elim (Option-cases (find intent_id_of current.id db.intents)) [
    | inl h ↦ rw (record_change, h) refl
    | inr (row, h) ↦ rw (record_change, h) refl
  ]

  lost_race-intents : (db : IntentDb) → (lost_race current.id target db).1.intents ≡ db.intents
  unfolding lost_race
  lost_race-intents db = elim (Option-cases (find intent_id_of current.id db.intents)) [
    | inl h ↦ rw (lost_race, h) refl
    | inr (row, h) ↦ elim (Bool-cases (row.status == target)) [
      | inl e ↦ rw (lost_race, h, e) refl
      | inr e ↦ rw (lost_race, h, e) refl
    ]
  ]

  after_update-intents :
      (p : Result Bool × IntentDb)
      → ((after_update between current target user name p).1.intents ≡ p.1.intents)
        ⊎ ((after_update between current target user name p).1.intents ≡ (between p.1).intents)
  after_update-intents (err x, db) = inl refl
  after_update-intents (ok true, db) = inr (record_change-intents (between db))
  after_update-intents (ok false, db) = inr (lost_race-intents (between db))

pub accepts :
    (s t : IntentStatus)
    → (assert_payment_intent_transition s t ≡ ok tt)
      ⊎ ((x : Failure) × (assert_payment_intent_transition s t ≡ err x))
accepts s t = Result-cases (assert_payment_intent_transition s t)

-- The branches of `transition` on the row that it reads.
transition-cases :
    (between : ℕ → IntentDb → IntentDb) (id : ℕ) (target : IntentStatus) (user : AuthUser)
    (columns : IntentChange) (db : IntentDb)
    → ((transition between id target user columns db).1 ≡ db)
      ⊎ ((current : PaymentIntent) × (find_intent id user db.intents ≡ some current)
          × (assert_payment_intent_transition current.status target ≡ ok tt)
          × (transition between id target user columns db
              ≡ write_status
                  (between 1)
                  current
                  target
                  user
                  columns
                  (payment_event target)
                  (between 0 db)))
unfolding transition
transition-cases between id target user columns db =
    elim (Option-cases (find_intent id user db.intents)) [
      | inl h ↦ inl (rw (transition, h) refl)
      | inr (current, h) ↦ elim (accepts current.status target) [
        | inl e ↦ elim (Bool-cases (current.status == target)) [
          | inl there ↦ inl (rw (transition, h, e, there) refl)
          | inr elsewhere ↦ inr (current, h, e, rw (transition, h, e, elsewhere) refl)
        ]
        | inr (x, e) ↦ inl (rw (transition, h, e) refl)
      ]
    ]

-- Whatever other calls do between the statements of `transition`: it leaves the tables that it has
-- read alone, or it has read a row of the caller and found some rows when it writes. In what it has
-- written then every row is one of those, the same, or, if it is the row that was read and still has
-- the version that was read, one accepted step of the state machine further under the next version.
-- The rows in the end are those, or what others have made of them before the second reading.
pub transition-RowsFollow :
    (between : ℕ → IntentDb → IntentDb) (id : ℕ) (target : IntentStatus) (user : AuthUser)
    (columns : IntentChange) (db : IntentDb)
    → ((transition between id target user columns db).1 ≡ db)
      ⊎ ((read : PaymentIntent) × (find_intent id user db.intents ≡ some read)
          × (written : IntentDb) × RowsFollow read (between 0 db).intents written.intents
          × (((transition between id target user columns db).1.intents ≡ written.intents)
              ⊎ ((transition between id target user columns db).1.intents
                  ≡ (between 1 written).intents)))
unfolding write_status
transition-RowsFollow between id target user columns db =
    elim (transition-cases between id target user columns db) [
      | inl same ↦ inl same
      | inr (current, found, accepted, e) ↦ inr (
        current,
        found,
        (update_intent current target columns (between 0 db)).1,
        update_intent-RowsFollow target columns current accepted (between 0 db),
        rw e (
            after_update-intents (between 1) current target user (payment_event target)
              (update_intent current target columns (between 0 db))),
      )
    ]
