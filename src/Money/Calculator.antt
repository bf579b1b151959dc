-- ===== src/Money/Calculator.antt =====
-- `MoneyCalculator` (apps/backend/src/payments/money/money-calculator.ts).
use native.Mathlib.Nat.{div-add-mod, mod-lt}
use ev_charge_platform.Prelude.{
  ℕ, ◌+◌, ◌*◌, ◌/◌, ◌%◌, ◌≤◌, ◌<◌, ◌≡◌, ℤ, pos, negsuc, ◌+ℤ◌, ◌*ℤ◌, quotient, remainder, ltb_ℤ,
  leb_ℤ, int_laws, String, Bool, true, false, ◌||◌, ok, err, range_error, guard-eq-ok, Result,
  bind_result, List, [], ◌∷◌, All, bind_result-eq-ok, Bool-cases, leb, inl, inr, if◌then◌else◌,
  arith,
}
use ev_charge_platform.Money.{
  Money, MoneyOptions, Sign, minus_one, one, bigint, no_options, from_minor_units, zero_money, add,
  compare_money,
}
use ev_charge_platform.Money.Laws.{add_exact}

-- `values.reduce((total, value) => total.add(value), total)`
unfoldable pub sum_from : Money → List Money → Result Money
sum_from total [] = ok total
sum_from total (value ∷ values) = bind_result (add total value) λ next. sum_from next values

unfoldable pub sum_money : List Money → String → Result Money
unfolding zero_money sum_from
sum_money values currency =
    bind_result (zero_money currency no_options) λ zero. sum_from zero values

abbrev is_at_most : Sign → Bool
is_at_most one = false
is_at_most _ = true

abbrev is_at_least : Sign → Bool
is_at_least minus_one = false
is_at_least _ = true

unfoldable pub minimum : Money → Money → Result Money
unfolding compare_money
minimum left right =
    bind_result (compare_money left right) λ s. ok (if is_at_most s then left else right)

unfoldable pub maximum : Money → Money → Result Money
unfolding compare_money
maximum left right =
    bind_result (compare_money left right) λ s. ok (if is_at_least s then left else right)

unfoldable pub rounded_quotient : ℤ → ℕ → ℤ
unfolding quotient remainder ◌+ℤ◌ ◌*ℤ◌
rounded_quotient product denominator =
    if leb_ℤ (pos denominator) (remainder product denominator *ℤ pos 2)
    then quotient product denominator +ℤ pos 1
    else quotient product denominator

-- The denominator is tested positive before it divides, so it goes on as a natural number.
unfoldable pub multiply_ratio : Money → ℤ → ℤ → Result Money
multiply_ratio value numerator (negsuc d) = err range_error
multiply_ratio value numerator (pos d) =
    if ltb_ℤ numerator (pos 0) || leb_ℤ (pos d) (pos 0)
    then err range_error
    else from_minor_units (bigint (rounded_quotient (value.amount_minor *ℤ numerator) d))
        value.currency no_options

abbrev pub total_minor : List Money → ℤ
total_minor [] = pos 0
total_minor (m ∷ ms) = m.amount_minor +ℤ total_minor ms

zero_money_exact :
    (currency : String) (options : MoneyOptions) {m : Money}
    → zero_money currency options ≡ ok m
    → (m.amount_minor ≡ pos 0) × (m.currency ≡ currency)
unfolding zero_money
zero_money_exact currency options h = ground arith

sum_from_exact :
    (values : List Money) (total : Money) {m : Money}
    → sum_from total values ≡ ok m
    → (m.amount_minor ≡ total.amount_minor +ℤ total_minor values)
      × All (λ (v : Money). v.currency ≡ total.currency) values
unfolding sum_from
sum_from_exact [] total h = grind int_laws
sum_from_exact (v ∷ values) total {m} h =
    let (next, e, rest) = bind_result-eq-ok (add total v) (λ t. sum_from t values) h in
    let (amount, currency, same) = add_exact total v e in
    let (sum, all) = sum_from_exact values next rest in
    (rw (sum, amount) (omega int_laws), (same, rw currency at all))

-- A sum that succeeds is the exact sum of the amounts, and every amount is in its currency.
pub sum_money_exact :
    (values : List Money) (currency : String) {m : Money}
    → sum_money values currency ≡ ok m
    → (m.amount_minor ≡ total_minor values) × All (λ (v : Money). v.currency ≡ currency) values
unfolding sum_money
sum_money_exact values currency {m} h =
    let (zero, e, rest) =
      bind_result-eq-ok (zero_money currency no_options) (λ t. sum_from t values) h in
    let (amount, same) = zero_money_exact currency no_options e in
    let (sum, all) = sum_from_exact values zero rest in
    (rw (sum, amount) (omega int_laws), rw same at all)

-- The nearest integer to a quotient, half a unit upwards.
rounded_quotient-nearest :
    (p d : ℕ)
    → 0 < d
    → (r : ℕ) × (rounded_quotient (pos p) d ≡ pos r)
      × (r * d * 2 ≤ p * 2 + d)
      × (p * 2 < r * d * 2 + d)
unfolding rounded_quotient
rounded_quotient-nearest p d h = elim (Bool-cases (leb d (p % d * 2))) [
  | inl up ↦ (
    p / d + 1,
    ground arith,
    ground (arith, div-add-mod p d, mod-lt p h),
    ground (arith, div-add-mod p d, mod-lt p h),
  )
  | inr down ↦ (
    p / d,
    ground arith,
    ground (arith, div-add-mod p d, mod-lt p h),
    ground (arith, div-add-mod p d, mod-lt p h),
  )
]

pub from_minor_units_exact :
    (z : ℤ) (currency : String) (options : MoneyOptions) {m : Money}
    → from_minor_units (bigint z) currency options ≡ ok m
    → m.amount_minor ≡ z
unfolding from_minor_units
from_minor_units_exact z currency options h = ground arith

pos-mul : (v n : ℕ) → pos v *ℤ pos n ≡ pos (v * n)
unfolding ◌*ℤ◌
pos-mul v n = ground arith

-- For an amount and a ratio that are not negative, a result of `multiplyRatio` is the exact
-- product rounded to the nearest minor unit, half a unit upwards.
pub multiply_ratio-nearest :
    (value : Money) (v n d : ℕ) {m : Money}
    → value.amount_minor ≡ pos v
    → multiply_ratio value (pos n) (pos d) ≡ ok m
    → (r : ℕ) × (m.amount_minor ≡ pos r) × (r * d * 2 ≤ v * n * 2 + d) × (v * n * 2 < r * d * 2 + d)
unfolding multiply_ratio
multiply_ratio-nearest value v n d {m} e h =
    let made = guard-eq-ok (ltb_ℤ (pos n) (pos 0) || leb_ℤ (pos d) (pos 0)) range_error _ h in
    let amount =
      from_minor_units_exact (rounded_quotient (value.amount_minor *ℤ pos n) d) value.currency
        no_options made.1 in
    let (r, e', low, high) = rounded_quotient-nearest (v * n) d (ground (arith, made.0)) in
    (r, rw (amount, e, pos-mul v n) e', low, high)
