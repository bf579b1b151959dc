-- ===== src/Prelude/Table.antt =====
-- A database table as the list of its rows, read and written by a column.
use Prim.Native.Nat.{ℕ}
use mathlib.Core.Path.{◌≡◌, refl, sym, ◌∙◌}
use mathlib.Core.Logic.{◌⊎◌, inl, inr}
use mathlib.Core.Bool.{false}
use mathlib.Core.Option
use mathlib.Core.Option.{Option, none, some}
use mathlib.Core.List.{List, [], ◌∷◌, map}
use native.Mathlib.Omega.{arith}
use ev_charge_platform.Prelude.Tests.{
  Comparable, ◌==◌, if◌then◌else◌, Bool-cases, ℕ_eq, nat_eq, nat_eq_iff,
}

module _ {ℓ κ} {K : Type κ} {A : Type ℓ} ⦃e : Comparable K⦄ where
  -- `findUnique` and `findFirst`: the first row whose column `c` is `k`.
  abbrev pub find : (A → K) → K → List A → Option A
  find c k [] = none
  find c k (x ∷ xs) = if c x == k then some x else find c k xs

  -- `update` and `updateMany` on the rows whose column `c` is `k`.
  abbrev pub at_key : (A → K) → K → (A → A) → A → A
  at_key c k f x = if c x == k then f x else x

  abbrev pub update : (A → K) → K → (A → A) → List A → List A
  update c k f xs = map (at_key c k f) xs

  pub find-column : (c : A → K) (k : K) (x : A) (xs : List A) → find c k xs ≡ some x → c x ≡ k
  find-column c k x [] h = ground arith
  find-column c k x (y ∷ xs) h = ground (arith, e.tells (c y) k, find-column c k x xs)

  -- A write that keeps the column `c` of every row commutes with a search by `c`.
  pub find-map :
      (c : A → K) (k : K) (g : A → A) (xs : List A)
      → ((x : A) → c (g x) ≡ c x)
      → find c k (map g xs) ≡ Option.map g (find c k xs)
  find-map c k g [] h = refl
  find-map c k g (x ∷ xs) h =
      rw (h x) (elim (Bool-cases (c x == k)) [ inl t ↦ rw t | inr t ↦ rw t (find-map c k g xs h) ])

pub map-eq-some :
    {A B : Type 0} (g : A → B) (o : Option A) {b : B}
    → Option.map g o ≡ some b
    → (a : A) × (o ≡ some a) × (b ≡ g a)
map-eq-some g none h = cc
map-eq-some g (some a) h = (a, refl, cc)

pub at_key-keeps :
    {A : Type 0} (column : A → ℕ) (k : ℕ) (g : A → A)
    → ((x : A) → column (g x) ≡ column x)
    → (x : A) → column (at_key column k g x) ≡ column x
at_key-keeps column k g h x = elim (Bool-cases (nat_eq (column x) k)) [
  | inl e ↦ rw e (h x)
  | inr e ↦ rw e refl
]

-- A row that is found after an update was found before it.
pub found-after :
    {A : Type 0} (column : A → ℕ) (k : ℕ) (g : A → A) (xs : List A)
    → ((x : A) → column (g x) ≡ column x)
    → (id : ℕ) {y : A} → find column id (update column k g xs) ≡ some y
    → (x : A) × (find column id xs ≡ some x)
      × (((id ≡ k) × (y ≡ g x)) ⊎ ((nat_eq id k ≡ false) × (y ≡ x)))
found-after column k g xs h id e =
    let (x, was, y) =
      map-eq-some (at_key column k g) (find column id xs)
        (sym (find-map column id (at_key column k g) xs (at_key-keeps column k g h)) ∙ e) in
    let same = find-column column id x xs was in
    (
      x,
      was,
      elim (Bool-cases (nat_eq id k)) [
        | inl here ↦ inl ((nat_eq_iff id k).0 here, y ∙ rw (same, here) refl)
        | inr there ↦ inr (there, y ∙ rw (same, there) refl)
      ],
    )

pub found-before :
    {A : Type 0} (column : A → ℕ) (k : ℕ) (g : A → A) (xs : List A)
    → ((x : A) → column (g x) ≡ column x)
    → (id : ℕ) (x : A) → find column id xs ≡ some x
    → find column id (update column k g xs) ≡ some (if nat_eq id k then g x else x)
found-before column k g xs h id x was =
    find-map column id (at_key column k g) xs (at_key-keeps column k g h)
    ∙ rw (was, find-column column id x xs was) refl

at_key-same : {A : Type 0} (column : A → ℕ) (k : ℕ) (x : A) → at_key column k (λ y. y) x ≡ x
at_key-same column k x = elim (Bool-cases (nat_eq (column x) k)) [
  | inl e ↦ rw e refl
  | inr e ↦ rw e refl
]

pub update-same :
    {A : Type 0} (column : A → ℕ) (k : ℕ) (xs : List A) → update column k (λ y. y) xs ≡ xs
update-same column k [] = refl
update-same column k (x ∷ xs) = rw (at_key-same column k x, update-same column k xs) refl
