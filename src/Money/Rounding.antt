-- ===== src/Money/Rounding.antt =====
-- What `Money.fromDecimal` makes of a decimal text: the number it writes, to the nearest minor unit.
use native.Mathlib.Nat.{pow-suc, mul-le-mul_right}
use ev_charge_platform.Money.{Money, MoneyOptions, bigint, from_minor_units, parsed_minor_units}
use ev_charge_platform.Prelude.{
  ℕ, ◌+◌, ◌-◌, ◌*◌, ◌^◌, ◌≤◌, ◌<◌, ◌≡◌, true, List, [], ◌∷◌, length, Bool-cases, inl, inr, leb,
  if◌then◌else◌, arith, zero, suc, ℤ, pos, ◌-ℤ◌, String, Bool, false, some, ok, nat_eq, refl, sym,
  ◌∙◌, ap, ◌++◌,
}
use ev_charge_platform.Money.Text.{is_digit, all_digits, digits_value, negate}
use ev_charge_platform.Money.Decimal.{
  minor_units_of, span_digits, match_fraction, match_unsigned, match_decimal, from_decimal,
}

-- A run of digits behind `a` is `a` shifted, and the run itself.
digits_value-shift :
    (a : ℕ) (ds : List ℕ) → digits_value a ds ≡ a * 10 ^ length ds + digits_value 0 ds
unfolding digits_value
digits_value-shift a [] = omega arith
digits_value-shift a (d ∷ ds) =
    rw
      (
        digits_value-shift (a * 10 + (d - 48)) ds,
        digits_value-shift (0 * 10 + (d - 48)) ds,
        pow-suc,
      )
      (omega arith)

below-shift : (x p r : ℕ) → x ≤ 9 → r < p → (0 * 10 + x) * p + r < p * 10
below-shift x p r h k = omega (arith, mul-le-mul_right p h)

digits_value-lt : (ds : List ℕ) → all_digits ds ≡ true → digits_value 0 ds < 10 ^ length ds
unfolding digits_value
digits_value-lt [] h = omega arith
digits_value-lt (d ∷ ds) h =
    rw (digits_value-shift (0 * 10 + (d - 48)) ds, pow-suc)
      (below-shift (d - 48) (10 ^ length ds) (digits_value 0 ds) (ground arith)
        (digits_value-lt ds (ground arith)))

-- The third decimal `c` decides between the two neighbours; `p` is the weight of those behind it,
-- which are worth `r`.
rounding_core :
    (n c p r : ℕ)
    → c ≤ 9
    → r < p
    → let rounded = (n + (if leb 5 c then 1 else 0)) * (p * 10 * 10 * 10) in
      let exact = (n * 10 * p + (c * p + r)) * 100 in
      (rounded * 2 ≤ exact * 2 + p * 10 * 10 * 10) × (exact * 2 < rounded * 2 + p * 10 * 10 * 10)
rounding_core n c p r h k = elim (Bool-cases (leb 5 c)) [
  | inl up ↦ rw up (
      let high : 5 * p ≤ c * p = mul-le-mul_right p (ground arith) in
      let cap : c * p ≤ 9 * p = mul-le-mul_right p h in (omega arith, omega arith))
  | inr down ↦
      rw down
        (let low : c * p ≤ 4 * p = mul-le-mul_right p (ground arith) in (omega arith, omega arith))
]

-- The number of minor units of `whole.fraction` is the nearest one, half a unit upwards: with n
-- decimals, scaled by 10 ^ n.
minor_units_of-nearest :
    (whole fraction : List ℕ)
    → all_digits fraction ≡ true
    → let scale = 10 ^ length fraction in
      let exact = (digits_value 0 whole * scale + digits_value 0 fraction) * 100 in
      let rounded = minor_units_of whole fraction * scale in
      (rounded * 2 ≤ exact * 2 + scale) × (exact * 2 < rounded * 2 + scale)
unfolding minor_units_of
minor_units_of-nearest whole [] h = ground arith
minor_units_of-nearest whole (a ∷ []) h = ground arith
minor_units_of-nearest whole (a ∷ b ∷ []) h = ground arith
minor_units_of-nearest whole (a ∷ b ∷ c ∷ ds) h =
    let ab = (0 + (a - 48)) * 10 + (b - 48) in
    let (low, high) =
      rounding_core (digits_value 0 whole * 100 + ab) (c - 48) (10 ^ length ds) (digits_value 0 ds)
        (ground arith) (digits_value-lt ds (ground arith)) in
    rw (pow-suc, pow-suc, pow-suc, digits_value-shift (ab * 10 + (c - 48)) ds)
      (omega (arith, low), omega (arith, high))

-- A sign, a whole part and the decimals behind a point, if there are any.
abbrev pub signed_text : Bool → List ℕ → List ℕ
signed_text true ds = b'-' ∷ ds
signed_text false ds = ds

abbrev pub point_text : List ℕ → List ℕ
point_text [] = []
point_text (d ∷ ds) = b'.' ∷ d ∷ ds

abbrev pub decimal_text : Bool → List ℕ → List ℕ → List ℕ
decimal_text negative whole fraction = signed_text negative (whole ++ point_text fraction)

span_digits-point :
    (fraction : List ℕ) → span_digits (point_text fraction) ≡ ([], point_text fraction)
unfolding span_digits
span_digits-point [] = refl
span_digits-point (d ∷ ds) = refl

first_digit : (d : ℕ) (ds : List ℕ) → all_digits (d ∷ ds) ≡ true → is_digit d ≡ true
first_digit d ds h = ground (arith, h)

span_digits-whole :
    (whole fraction : List ℕ)
    → all_digits whole ≡ true
    → span_digits (whole ++ point_text fraction) ≡ (whole, point_text fraction)
unfolding span_digits
span_digits-whole [] fraction h = span_digits-point fraction
span_digits-whole (d ∷ ds) fraction h =
    rw (span_digits-whole ds fraction (ground arith)) (rw (first_digit d ds h) refl)

match_fraction-point :
    (fraction : List ℕ)
    → all_digits fraction ≡ true
    → match_fraction (point_text fraction) ≡ some fraction
unfolding match_fraction
match_fraction-point [] h = refl
match_fraction-point (d ∷ ds) h = rw h refl

match_unsigned-whole :
    (negative : Bool) (d : ℕ) (ds fraction : List ℕ)
    → all_digits fraction ≡ true
    → match_unsigned negative (d ∷ ds, point_text fraction)
      ≡ some (record { negative = negative; whole = d ∷ ds; fraction = fraction })
unfolding match_unsigned
match_unsigned-whole negative d ds fraction h =
    rw (match_unsigned, match_fraction-point fraction h) refl

no_minus : (d : ℕ) → is_digit d ≡ true → nat_eq d b'-' ≡ false
no_minus d h = ground arith

match_decimal-text :
    (negative : Bool) (d : ℕ) (ds fraction : List ℕ)
    → all_digits (d ∷ ds) ≡ true
    → all_digits fraction ≡ true
    → match_decimal (decimal_text negative (d ∷ ds) fraction)
      ≡ some (record { negative = negative; whole = d ∷ ds; fraction = fraction })
unfolding match_decimal
match_decimal-text true d ds fraction h k =
    ap (match_unsigned true) (span_digits-whole (d ∷ ds) fraction h)
    ∙ match_unsigned-whole true d ds fraction k
match_decimal-text false d ds fraction h k = rw (no_minus d (first_digit d ds h)) (
    ap (match_unsigned false) (span_digits-whole (d ∷ ds) fraction h)
    ∙ match_unsigned-whole false d ds fraction k)

made_exactly :
    (n : ℤ) (currency : String) (options : MoneyOptions) {m : Money}
    → from_minor_units (bigint n) currency options ≡ ok m
    → m.amount_minor ≡ n
unfolding from_minor_units parsed_minor_units
made_exactly n currency options h = ground arith

negate_minus :
    (negative : Bool) (n : ℕ)
    → (if negative then negate n else pos n) ≡ (if negative then pos 0 -ℤ pos n else pos n)
unfolding ◌-ℤ◌
negate_minus true zero = refl
negate_minus true (suc n) = ground arith
negate_minus false n = refl

from_decimal-text :
    (negative : Bool) (d : ℕ) (ds fraction : List ℕ) (currency : String) (options : MoneyOptions)
    → all_digits (d ∷ ds) ≡ true
    → all_digits fraction ≡ true
    → from_decimal (decimal_text negative (d ∷ ds) fraction) currency options
      ≡ from_minor_units
          (bigint (
            if negative
            then negate (minor_units_of (d ∷ ds) fraction)
            else pos (minor_units_of (d ∷ ds) fraction)))
          currency
          options
unfolding from_decimal
from_decimal-text negative d ds fraction currency options h k =
    rw (from_decimal, match_decimal-text negative d ds fraction h k) refl

-- An amount that `fromDecimal` makes of a text, an optional minus sign, one or more digits and, behind
-- a point, decimals if there are any: it has the sign of the text, and without it it is the number of
-- minor units nearest to the number that the text writes, half a unit upwards. With n decimals both
-- are compared scaled by 10 ^ n.
pub from_decimal-nearest :
    (negative : Bool) (d : ℕ) (ds fraction : List ℕ) (currency : String) (options : MoneyOptions)
    {m : Money}
    → all_digits (d ∷ ds) ≡ true
    → all_digits fraction ≡ true
    → from_decimal (decimal_text negative (d ∷ ds) fraction) currency options ≡ ok m
    → let scale = 10 ^ length fraction in
      let exact = (digits_value 0 (d ∷ ds) * scale + digits_value 0 fraction) * 100 in
      (n : ℕ) × (m.amount_minor ≡ (if negative then pos 0 -ℤ pos n else pos n))
      × (n * scale * 2 ≤ exact * 2 + scale)
      × (exact * 2 < n * scale * 2 + scale)
unfolding from_decimal
from_decimal-nearest negative d ds fraction currency options h k made =
    let (low, high) = minor_units_of-nearest (d ∷ ds) fraction k in
    (
      minor_units_of (d ∷ ds) fraction,
      made_exactly _ currency options
            (sym (from_decimal-text negative d ds fraction currency options h k) ∙ made)
          ∙ negate_minus negative (minor_units_of (d ∷ ds) fraction),
      low,
      high,
    )
