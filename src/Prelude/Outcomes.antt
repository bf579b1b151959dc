-- ===== src/Prelude/Outcomes.antt =====
-- Exceptions as values, and the two ways in which the program runs against the database.
use native.Mathlib.Omega.{arith}
use mathlib.Core.Path.{◌≡◌, refl, ap, ◌∙◌}
use mathlib.Core.Logic.{◌⊎◌, inl, inr}
use mathlib.Core.Bool.{Bool, true, false}
use mathlib.Core.Option.{Option, none, some}
use ev_charge_platform.Prelude.Tests.{if◌then◌else◌}

-- What the program throws: a constructor for each exception class and code.
pub data Failure : Type 0 where
  range_error type_error not_found bad_request : Failure
  conflict : Failure
  idempotency_payload_conflict idempotency_in_progress : Failure
  wallet_not_active insufficient_wallet_balance capture_exceeds_reservation : Failure
  financial_concurrency_conflict serialization_failure constraint_violation : Failure
  invalid_payment_intent_transition invalid_session_transition : Failure
  optimistic_lock_conflict : Failure
  connector_unavailable connector_concurrency_conflict invalid_session_state : Failure
  active_session_exists unique_violation charger_failure : Failure
  payment_not_authorized payment_policy_missing payments_mode_unavailable : Failure
  capture_exceeds_authorization refund_exceeds_capture : Failure

pub data Result {ℓ} (A : Type ℓ) : Type ℓ where
  ok : A → Result A
  err : Failure → Result A

module _ {ℓ κ} {A : Type ℓ} {B : Type κ} where
  abbrev pub bind_result : Result A → (A → Result B) → Result B
  bind_result (ok a) f = f a
  bind_result (err x) f = err x

module _ {ℓ κ} {A : Type ℓ} {B : Type κ} where
  pub bind_result-eq-ok :
      (m : Result A) (f : A → Result B) {b : B}
      → bind_result m f ≡ ok b
      → (a : A) × (m ≡ ok a) × (f a ≡ ok b)
  bind_result-eq-ok (ok a) f h = (a, refl, h)
  bind_result-eq-ok (err x) f h = cc

pub guard-eq-ok {ℓ} :
    {A : Type ℓ} (b : Bool) (x : Failure) (r : Result A) {a : A}
    → (if b then err x else r) ≡ ok a
    → (b ≡ false) × (r ≡ ok a)
guard-eq-ok true x r h = cc
guard-eq-ok false x r h = (refl, h)

pub Result-cases {ℓ} :
    {A : Type ℓ} (r : Result A) → ((a : A) × (r ≡ ok a)) ⊎ ((x : Failure) × (r ≡ err x))
Result-cases (ok a) = inl (a, refl)
Result-cases (err x) = inr (x, refl)

-- A transaction: a throw rolls every write back, so an error carries no state.
abbrev pub Tx {ℓ κ} : Type ℓ → Type κ → Type (ℓ ⊔ κ)
Tx S A = S → Result (A × S)

module _ {ℓ κ} {S : Type ℓ} {A : Type κ} where
  abbrev pub pure : A → Tx S A
  pure a s = ok (a, s)

  abbrev pub throw : Failure → Tx S A
  throw x s = err x

  abbrev pub gets : (S → A) → Tx S A
  gets f s = ok (f s, s)

  -- A computation that does not touch the database.
  abbrev pub lift : Result A → Tx S A
  lift (ok a) s = ok (a, s)
  lift (err x) s = err x

  abbrev pub or_throw : Option A → Failure → Tx S A
  or_throw none x s = err x
  or_throw (some a) x s = ok (a, s)

module _ {ℓ} {S : Type ℓ} where
  abbrev pub throw_if : Bool → Failure → Tx S (Unit {0})
  throw_if true x s = err x
  throw_if false x s = ok (tt, s)

  abbrev pub modify : (S → S) → Tx S (Unit {0})
  modify f s = ok (tt, f s)

infixl 5 ◌>>=◌ ◌>>◌
abbrev pub ◌>>=◌ {ℓ κ ν} : {S : Type ℓ} {A : Type κ} {B : Type ν} → Tx S A → (A → Tx S B) → Tx S B
◌>>=◌ m f s = elim (m s) [ ok (a, s') ↦ f a s' | err x ↦ err x ]

abbrev pub ◌>>◌ {ℓ ν} : {S : Type ℓ} {B : Type ν} → Tx S (Unit {0}) → Tx S B → Tx S B
m >> k = m >>= λ _. k

module _ {ℓ κ ν} {S : Type ℓ} {A : Type κ} {B : Type ν} where
  split_ok :
      (f : A → Tx S B) (m : Result (A × S)) {r : B × S}
      → elim m [ ok (a, s') ↦ f a s' | err x ↦ err x ] ≡ ok r
      → (a : A) × (s' : S) × (m ≡ ok (a, s')) × (f a s' ≡ ok r)
  split_ok f (ok (a, s')) h = (a, s', refl, h)
  split_ok f (err x) h = cc

  -- What a block that succeeded did first, and how it went on.
  pub >>=-eq-ok :
      (m : Tx S A) (f : A → Tx S B) (s : S) {r : B × S}
      → (m >>= f) s ≡ ok r
      → (a : A) × (s' : S) × (m s ≡ ok (a, s')) × (f a s' ≡ ok r)
  >>=-eq-ok m f s h = split_ok f (m s) h

  -- The same, handed on: what follows names the parts and no longer how they were found.
  pub >>=-then {μ} :
      {C : Type μ} (m : Tx S A) (f : A → Tx S B) (s : S) {r : B × S}
      → (m >>= f) s ≡ ok r
      → ((a : A) (s' : S) → m s ≡ ok (a, s') → f a s' ≡ ok r → C)
      → C
  >>=-then m f s h next = let (a, s', e, rest) = >>=-eq-ok m f s h in next a s' e rest

-- A method outside any transaction: what it has committed stays, whether it returns or throws.
abbrev pub Action {ℓ} : Type 0 → Type ℓ → Type ℓ
Action S A = S → Result A × S

-- `$transaction(operation)`: commits on a return and rolls back on a throw.
abbrev pub committed {ℓ} : {S : Type 0} {A : Type ℓ} → S → Result (A × S) → Result A × S
committed s (ok (a, s')) = (ok a, s')
committed s (err x) = (err x, s)

-- What a step that succeeds and writes nothing has returned.
module _ {S A : Type 0} where
  pub pure-eq-ok : {x y : A} {s t : S} → pure x s ≡ ok (y, t) → (x ≡ y) × (t ≡ s)
  pure-eq-ok h = ground arith

  pub lift-eq-ok :
      (r : Result A) (s : S) {a : A} {t : S} → lift r s ≡ ok (a, t) → (r ≡ ok a) × (t ≡ s)
  lift-eq-ok (ok a) s h = ground arith
  lift-eq-ok (err x) s h = cc

pub throw_if-eq-ok :
    {S : Type 0} (b : Bool) (x : Failure) (s : S) {u : Unit {0}} {t : S}
    → throw_if b x s ≡ ok (u, t)
    → (b ≡ false) × (t ≡ s)
throw_if-eq-ok true x s h = cc
throw_if-eq-ok false x s h = ground arith

-- A block that branches took one of its branches.
pub if-eq-ok :
    {S A : Type 0} (b : Bool) (m n : Tx S A) (s : S) {r : Result (A × S)}
    → (if b then m else n) s ≡ r
    → ((b ≡ true) × (m s ≡ r)) ⊎ ((b ≡ false) × (n s ≡ r))
if-eq-ok true m n s h = inl (refl, h)
if-eq-ok false m n s h = inr (refl, h)

-- A block runs on from its first step.
pub >>=-runs :
    {S A B : Type 0} (m : Tx S A) (f : A → Tx S B) (s : S) {a : A} {t : S} {r : Result (B × S)}
    → m s ≡ ok (a, t)
    → f a t ≡ r
    → (m >>= f) s ≡ r
>>=-runs m f s h k = ap (λ r. elim r [ ok (a, t) ↦ f a t | err x ↦ err x ]) h ∙ k

pub else-runs :
    {S A : Type 0} (b : Bool) (m n : Tx S A) (s : S) {r : Result (A × S)}
    → b ≡ false
    → n s ≡ r
    → (if b then m else n) s ≡ r
else-runs true m n s h k = cc h
else-runs false m n s h k = k

pub then-runs :
    {S A : Type 0} (b : Bool) (m n : Tx S A) (s : S) {r : Result (A × S)}
    → b ≡ true
    → m s ≡ r
    → (if b then m else n) s ≡ r
then-runs true m n s h k = k
then-runs false m n s h k = cc h
