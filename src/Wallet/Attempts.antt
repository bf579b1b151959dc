-- ===== src/Wallet/Attempts.antt =====
-- What the retries of `serializableTransaction` guarantee to a method of the wallet.
use ev_charge_platform.Prelude.{
  ℕ, zero, suc, ◌+◌, ◌<◌, ◌≡◌, refl, ◌∙◌, ◌⊎◌, inl, inr, none, some, nat_eq, nat_eq_iff, Tx, Result,
  committed, ok, err, financial_concurrency_conflict, serialization_failure, if◌then◌else◌, arith,
  false,
}
use ev_charge_platform.Database.{Db}
use ev_charge_platform.Wallet.{Interference, serializable_transaction, attempts}

committed-keeps :
    {A : Type 0} (Q : Db → Type 0) (db : Db) (r : Result (A × Db))
    → Q db
    → ((a : A) (d' : Db) → r ≡ ok (a, d') → Q d')
    → Q (committed db r).1
committed-keeps Q db (ok (a, d')) q h = h a d' refl
committed-keeps Q db (err x) q h = q

-- The state that the attempt with this number starts from.
pub data IsState (aborts : Interference) (db : Db) : ℕ → Db → Type 0 where
  first : IsState aborts db 0 db
  retried : (n : ℕ) (d : Db) → aborts n ≡ some d → IsState aborts db (n + 1) d

-- One attempt was not aborted, and the method has run on its state; or the attempts were used up.
pub data Outcome {A : Type 0} (aborts : Interference) (operation : Tx Db A) (db : Db)
    (r : Result A × Db) : Type 0 where
  ran :
      (n : ℕ) (d : Db)
      → n < 3
      → IsState aborts db n d
      → aborts n ≡ none
      → r ≡ committed d (operation d)
      → Outcome aborts operation db r
  gave_up :
      (d : Db)
      → aborts 2 ≡ some d
      → r ≡ (err serialization_failure, d)
      → Outcome aborts operation db r

module _ {A : Type 0} (aborts : Interference) (operation : Tx Db A) where
  attempts-cases :
      (left attempt : ℕ) (db : Db)
      → ((aborts attempt ≡ none)
          × (attempts aborts operation (suc left) attempt db ≡ committed db (operation db)))
        ⊎ ((d : Db) × (aborts attempt ≡ some d)
            × (attempts aborts operation (suc left) attempt db ≡ (
                if nat_eq attempt 2
                then (err serialization_failure, d)
                else attempts aborts operation left (attempt + 1) d)))
  unfolding attempts
  attempts-cases left attempt db = ground arith

  last_attempt :
      (attempt : ℕ) (base d : Db) {r : Result A × Db} (x : Result A × Db)
      → attempt ≡ 2
      → aborts attempt ≡ some d
      → r ≡ (if nat_eq attempt 2 then (err serialization_failure, d) else x)
      → Outcome aborts operation base r
  last_attempt attempt base d x two e q =
      gave_up d (rw two at e) (q ∙ rw ((nat_eq_iff attempt 2).1 two) refl)

  attempts-Outcome :
      (left attempt : ℕ) (base db : Db)
      → attempt + suc left ≡ 3
      → IsState aborts base attempt db
      → Outcome aborts operation base (attempts aborts operation (suc left) attempt db)
  attempts-Outcome zero attempt base db total s = elim (attempts-cases 0 attempt db) [
    | inl (e, r) ↦ ran attempt db (omega (arith, total)) s e r
    | inr (d, e, r) ↦ last_attempt attempt base d _ (omega (arith, total)) e r
  ]
  attempts-Outcome (suc left) attempt base db total s =
      elim (attempts-cases (suc left) attempt db) [
        | inl (e, r) ↦ ran attempt db (omega (arith, total)) s e r
        | inr (d, e, r) ↦
            let early : nat_eq attempt 2 ≡ false = ground (arith, total) in
            let next =
              attempts-Outcome left (attempt + 1) base d (omega (arith, total))
                (retried attempt d e) in
            rw (r, early) next
      ]

  -- A method ends after at most three attempts: either the first that is not aborted has run on the
  -- state it started from and is committed or rolled back whole, or the third was aborted too and
  -- the failure of the database comes out.
  pub serializable_transaction-Outcome :
      (db : Db) → Outcome aborts operation db (serializable_transaction aborts operation db)
  unfolding serializable_transaction
  serializable_transaction-Outcome db = attempts-Outcome 2 0 db db refl first

  Outcome-conflict :
      {db : Db} {r : Result A × Db}
      → Outcome aborts operation db r
      → r.0 ≡ err financial_concurrency_conflict
      → (d : Db) × (operation d ≡ err financial_concurrency_conflict)
  Outcome-conflict (ran n d lt s e q) h = (d, ground (arith, q, h))
  Outcome-conflict (gave_up d e q) h = cc

  -- The retries themselves never end in FINANCIAL_CONCURRENCY_CONFLICT: a method that does throws
  -- it itself.
  pub concurrency_conflict-unreachable :
      (db : Db)
      → (serializable_transaction aborts operation db).0 ≡ err financial_concurrency_conflict
      → (d : Db) × (operation d ≡ err financial_concurrency_conflict)
  concurrency_conflict-unreachable db h = Outcome-conflict (serializable_transaction-Outcome db) h

  IsState-keeps :
      (P : Db → Type 0) {db d : Db} {n : ℕ}
      → ((m : ℕ) (d' : Db) → aborts m ≡ some d' → P d')
      → P db
      → IsState aborts db n d
      → P d
  IsState-keeps P others p first = p
  IsState-keeps P others p (retried n d e) = others n d e

  -- What a method's commit establishes from `P`, and what holds from `P` anyway, holds after the
  -- retries, if the other transactions leave `P`.
  Outcome-keeps :
      (P Q : Db → Type 0) {db : Db} {r : Result A × Db}
      → ((d : Db) → P d → Q d)
      → ((d : Db) (a : A) (d' : Db) → P d → operation d ≡ ok (a, d') → Q d')
      → ((n : ℕ) (d : Db) → aborts n ≡ some d → P d)
      → P db
      → Outcome aborts operation db r
      → Q r.1
  Outcome-keeps P Q weaken step others p (ran n d lt s e q) = rw q (
      committed-keeps Q d (operation d) (weaken d (IsState-keeps P others p s))
        (λ a d'. step d a d' (IsState-keeps P others p s)))
  Outcome-keeps P Q weaken step others p (gave_up d e q) = rw q (weaken d (others 2 d e))

  pub serializable_transaction-keeps :
      (P Q : Db → Type 0) (db : Db)
      → ((d : Db) → P d → Q d)
      → ((d : Db) (a : A) (d' : Db) → P d → operation d ≡ ok (a, d') → Q d')
      → ((n : ℕ) (d : Db) → aborts n ≡ some d → P d)
      → P db
      → Q (serializable_transaction aborts operation db).1
  serializable_transaction-keeps P Q db weaken step others p =
      Outcome-keeps P Q weaken step others p (serializable_transaction-Outcome db)
