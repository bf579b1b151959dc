-- ===== src/Prelude/Methods.antt =====
-- Methods that run several transactions one after another: what is committed stays.
use mathlib.Core.Path.{◌≡◌, refl, ap, ◌∙◌}
use mathlib.Core.Logic.{◌⊎◌, inl, inr}
use mathlib.Core.Bool.{Bool, true, false}
use native.Mathlib.Omega.{arith}
use ev_charge_platform.Prelude.Tests.{if◌then◌else◌}
use ev_charge_platform.Prelude.Outcomes.{Failure, Result, ok, err, Action}

module _ {S A : Type 0} where
  abbrev pub returns : A → Action S A
  returns a s = (ok a, s)

  abbrev pub throws : Failure → Action S A
  throws x s = (err x, s)

  abbrev pub reads : (S → A) → Action S A
  reads f s = (ok (f s), s)

  -- The outcome of a call to code that does not touch the tables.
  abbrev pub calls : Result A → Action S A
  calls r s = (r, s)

module _ {S A B : Type 0} where
  infixl 5 ◌>>=◌
  abbrev go_on : (A → Action S B) → Result A × S → Result B × S
  go_on f (ok a, s) = f a s
  go_on f (err x, s) = (err x, s)

  unfoldable pub ◌>>=◌ : Action S A → (A → Action S B) → Action S B
  ◌>>=◌ m f s = go_on f (m s)

module _ {S B : Type 0} where
  infixl 5 ◌>>◌
  abbrev pub ◌>>◌ : Action S (Unit {0}) → Action S B → Action S B
  m >> k = m >>= λ _. k

module _ {S A : Type 0} where
  abbrev handle : (Failure → Action S A) → Result A × S → Result A × S
  handle h (ok a, s) = (ok a, s)
  handle h (err x, s) = h x s

  -- `try { m } catch (error) { h(error) }`
  unfoldable pub try_catch : Action S A → (Failure → Action S A) → Action S A
  try_catch m h s = handle h (m s)

-- What others do to the tables meanwhile.
abbrev pub meanwhile : {S : Type 0} → (S → S) → Action S (Unit {0})
meanwhile others s = (ok tt, others s)

-- How a method runs when its first step is known.
module _ {S A B : Type 0} where
  pub bind-runs :
      (m : Action S A) (f : A → Action S B) (s : S) {a : A} {t : S} {r : Result B × S}
      → m s ≡ (ok a, t)
      → f a t ≡ r
      → (m >>= f) s ≡ r
  unfolding ◌>>=◌
  bind-runs m f s h k = ap (go_on f) h ∙ k

  pub bind-fails :
      (m : Action S A) (f : A → Action S B) (s : S) {x : Failure} {t : S}
      → m s ≡ (err x, t)
      → (m >>= f) s ≡ (err x, t)
  unfolding ◌>>=◌
  bind-fails m f s h = ap (go_on f) h

module _ {S A : Type 0} where
  pub try_catch-fails :
      (m : Action S A) (h : Failure → Action S A) (s : S) {x : Failure} {t : S} {r : Result A × S}
      → m s ≡ (err x, t)
      → h x t ≡ r
      → try_catch m h s ≡ r
  unfolding try_catch
  try_catch-fails m h s e k = ap (handle h) e ∙ k

-- A method of which only the state matters that it leaves.
module _ {S A B : Type 0} where
  go_on_leaves :
      (f : A → Action S B) (p : Result A × S) {t : S}
      → p.1 ≡ t
      → ((a : A) (u : S) → (f a u).1 ≡ u)
      → (go_on f p).1 ≡ t
  go_on_leaves f (ok a, u) h k = k a u ∙ h
  go_on_leaves f (err x, u) h k = h

  pub bind-leaves :
      (m : Action S A) (f : A → Action S B) (s : S) {t : S}
      → (m s).1 ≡ t
      → ((a : A) (u : S) → (f a u).1 ≡ u)
      → ((m >>= f) s).1 ≡ t
  unfolding ◌>>=◌
  bind-leaves m f s h k = go_on_leaves f (m s) h k

-- What a method did first that has returned a value.
module _ {S A B : Type 0} where
  go_on-eq-ok :
      (f : A → Action S B) (p : Result A × S) {b : B} {t : S}
      → go_on f p ≡ (ok b, t)
      → (a : A) × (u : S) × (p ≡ (ok a, u)) × (f a u ≡ (ok b, t))
  go_on-eq-ok f (ok a, u) h = (a, u, refl, h)
  go_on-eq-ok f (err x, u) h = cc (ap (λ p. p.0) h)

  pub bind-eq-ok :
      (m : Action S A) (f : A → Action S B) (s : S) {b : B} {t : S}
      → (m >>= f) s ≡ (ok b, t)
      → (a : A) × (u : S) × (m s ≡ (ok a, u)) × (f a u ≡ (ok b, t))
  unfolding ◌>>=◌
  bind-eq-ok m f s h = go_on-eq-ok f (m s) h

module _ {S A : Type 0} where
  pub branch-taken :
      (b : Bool) (m n : Action S A) (s : S) {r : Result A × S}
      → (if b then m else n) s ≡ r
      → ((b ≡ true) × (m s ≡ r)) ⊎ ((b ≡ false) × (n s ≡ r))
  branch-taken true m n s h = inl (refl, h)
  branch-taken false m n s h = inr (refl, h)

  -- What a step has returned that only reads.
  pub returned-eq : {x y : A} {s t : S} → returns x s ≡ (ok y, t) → (x ≡ y) × (t ≡ s)
  returned-eq h = ground arith
