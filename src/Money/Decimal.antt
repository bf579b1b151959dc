-- ===== src/Money/Decimal.antt =====
-- `Money.fromDecimal` (apps/backend/src/payments/money/money.ts): a decimal text in minor units,
-- rounded on the third decimal.
use ev_charge_platform.Prelude.{
  ℕ, ◌+◌, ◌-◌, ◌*◌, pos, String, Bool, true, false, ◌&&◌, Option, none, some, List, [], ◌∷◌, leb,
  nat_eq, if◌then◌else◌, Result, err, type_error,
}
use ev_charge_platform.Money.Text.{is_digit, all_digits, digits_value, negate}
use ev_charge_platform.Money.{Money, MoneyOptions, bigint, from_minor_units}

-- The groups of `DECIMAL_PATTERN`, /^(-?)(\d+)(?:\.(\d+))?$/; no third group is no digits.
pub record DecimalMatch : Type 0 where
  pub negative : Bool
  pub whole : List ℕ
  pub fraction : List ℕ

-- The digits in front, and what follows them.
unfoldable pub span_digits : List ℕ → List ℕ × List ℕ
span_digits [] = ([], [])
span_digits (c ∷ cs) =
    let (digits, rest) = span_digits cs in if is_digit c then (c ∷ digits, rest) else ([], c ∷ cs)

-- `(?:\.(\d+))?$`
unfoldable pub match_fraction : List ℕ → Option (List ℕ)
match_fraction [] = some []
match_fraction (c ∷ []) = none
match_fraction (c ∷ d ∷ ds) = if nat_eq c b'.' && all_digits (d ∷ ds) then some (d ∷ ds) else none

unfoldable pub match_unsigned : Bool → List ℕ × List ℕ → Option DecimalMatch
unfolding match_fraction
match_unsigned negative ([], rest) = none
match_unsigned negative (d ∷ ds, rest) = elim (match_fraction rest) [
  | none ↦ none
  | some fraction ↦ some (record { negative = negative; whole = d ∷ ds; fraction = fraction })
]

unfoldable pub match_decimal : List ℕ → Option DecimalMatch
unfolding span_digits match_unsigned
match_decimal [] = none
match_decimal (c ∷ cs) =
    if nat_eq c b'-'
    then match_unsigned true (span_digits cs)
    else match_unsigned false (span_digits (c ∷ cs))

-- `BigInt((fraction + '00').slice(0, 2))`
unfoldable pub cents_of : List ℕ → ℕ
unfolding digits_value
cents_of [] = digits_value 0 (b'0' ∷ b'0' ∷ [])
cents_of (a ∷ []) = digits_value 0 (a ∷ b'0' ∷ [])
cents_of (a ∷ b ∷ ds) = digits_value 0 (a ∷ b ∷ [])

-- `fraction.length > 2 ? fraction.charCodeAt(2) - 48 : 0`
unfoldable pub rounding_digit : List ℕ → ℕ
rounding_digit (a ∷ b ∷ c ∷ ds) = c - 48
rounding_digit _ = 0

unfoldable pub minor_units_of : List ℕ → List ℕ → ℕ
unfolding digits_value cents_of rounding_digit
minor_units_of whole fraction =
    digits_value 0 whole * 100
    + cents_of fraction
    + (if leb 5 (rounding_digit fraction) then 1 else 0)

unfoldable pub from_decimal : List ℕ → String → MoneyOptions → Result Money
unfolding match_decimal minor_units_of from_minor_units
from_decimal source currency options = elim (match_decimal source) [
  | none ↦ err type_error
  | some m ↦
      let amount = minor_units_of m.whole m.fraction in
      from_minor_units (bigint (if m.negative then negate amount else pos amount)) currency options
]
