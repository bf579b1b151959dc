-- ===== src/Money/Printing.antt =====
-- `BigInt(text)` reads back what `bigint.toString()` writes, so an amount survives the HTTP form.
use ev_charge_platform.Prelude.{
  ℕ, zero, suc, ◌+◌, ◌-◌, ◌*◌, ◌/◌, ◌%◌, ◌<◌, ◌≡◌, refl, ℤ, pos, negsuc, true, List, [], ◌∷◌, some,
  Bool-cases, inl, inr, ltb, arith, ok, String,
}
use mathlib.Core.Path.{subst}
use ev_charge_platform.Money.Text.{
  all_digits, digits_value, parse_integer, show_from, show_natural, show_integer,
}
use ev_charge_platform.Money.{Money, MoneyOptions, MinorUnits, text, from_minor_units, to_http}

digit_step : (n : ℕ) → n / 10 * 10 + (48 + n % 10 - 48) ≡ n
digit_step n = omega arith

-- The text of `n` in front of `rest` reads as `n` did before `rest`, and is made of digits.
show_from-value :
    (fuel n : ℕ) (rest : List ℕ)
    → n < fuel
    → digits_value 0 (show_from fuel n rest) ≡ digits_value n rest
unfolding digits_value show_from
show_from-value zero n rest h = absurd (omega arith)
show_from-value (suc fuel) n rest h =
    ground (arith, digit_step n, show_from-value fuel (n / 10) ((48 + n % 10) ∷ rest))

show_from-digits :
    (fuel n : ℕ) (rest : List ℕ)
    → all_digits rest ≡ true
    → all_digits (show_from fuel n rest) ≡ true
unfolding show_from
show_from-digits zero n rest h = h
show_from-digits (suc fuel) n rest h =
    ground (arith, show_from-digits fuel (n / 10) ((48 + n % 10) ∷ rest))

-- A text of digits has a first one, so it starts with no minus sign.
show_from-cons :
    (fuel n : ℕ) (rest : List ℕ)
    → n < fuel
    → (c : ℕ) × (cs : List ℕ) × (show_from fuel n rest ≡ c ∷ cs)
unfolding show_from
show_from-cons zero n rest h = absurd (omega arith)
show_from-cons (suc fuel) n rest h = elim (Bool-cases (ltb n 10)) [
  | inl small ↦ (48 + n, rest, ground arith)
  | inr large ↦
      let (c, cs, e) = show_from-cons fuel (n / 10) ((48 + n % 10) ∷ rest) (ground arith) in
      (c, cs, ground arith)
]

show_natural-shape :
    (n : ℕ)
    → (c : ℕ) × (cs : List ℕ) × (show_natural n ≡ c ∷ cs)
      × (all_digits (c ∷ cs) ≡ true)
      × (digits_value 0 (c ∷ cs) ≡ n)
unfolding show_natural digits_value
show_natural-shape n =
    let (c, cs, e) = show_from-cons (suc n) n [] (omega arith) in
    (
      c,
      cs,
      e,
      subst (λ l. all_digits l ≡ true) e (show_from-digits (suc n) n [] refl),
      subst (λ l. digits_value 0 l ≡ n) e (show_from-value (suc n) n [] (omega arith)),
    )

-- `BigInt(text)` reads back the decimal text of every integer.
pub parse_integer-show_integer : (z : ℤ) → parse_integer (show_integer z) ≡ some z
unfolding parse_integer show_integer
parse_integer-show_integer (pos n) =
    let (c, cs, e, digits, value) = show_natural-shape n in rw e (ground arith)
parse_integer-show_integer (negsuc n) =
    let (c, cs, e, digits, value) = show_natural-shape (suc n) in rw e (ground arith)

-- The HTTP form of an amount gives the amount back, under the options it was made with.
pub from_minor_units-to_http :
    (v : MinorUnits) (currency : String) (options : MoneyOptions) {m : Money}
    → from_minor_units v currency options ≡ ok m
    → from_minor_units (text (to_http m).amount_minor) (to_http m).currency options ≡ ok m
unfolding from_minor_units to_http
from_minor_units-to_http v currency options {m} h =
    ground (arith, parse_integer-show_integer m.amount_minor)
