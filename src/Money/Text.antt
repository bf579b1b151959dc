-- ===== src/Money/Text.antt =====
-- Decimal texts as character codes: `BigInt(text)`, `bigint.toString()` and the two patterns of
-- apps/backend/src/payments/money/money.ts.
use ev_charge_platform.Prelude.{
  ℕ, zero, suc, ◌+◌, ◌-◌, ◌*◌, ◌/◌, ◌%◌, ℤ, pos, negsuc, Bool, true, ◌&&◌, Option, none, some, List,
  [], ◌∷◌, ltb, leb, nat_eq, if◌then◌else◌,
}

abbrev pub is_digit : ℕ → Bool
is_digit c = leb b'0' c && leb c b'9'

abbrev pub all_digits : List ℕ → Bool
all_digits [] = true
all_digits (c ∷ cs) = is_digit c && all_digits cs

-- `BigInt` of a run of digits, behind the digits already read.
unfoldable pub digits_value : ℕ → List ℕ → ℕ
digits_value acc [] = acc
digits_value acc (c ∷ cs) = digits_value (acc * 10 + (c - 48)) cs

-- `-n`, which is 0 for 0.
abbrev pub negate : ℕ → ℤ
negate zero = pos 0
negate (suc n) = negsuc n

-- One or more digits and nothing else, /^\d+$/.
unfoldable pub parse_digits : List ℕ → Option ℕ
unfolding digits_value
parse_digits [] = none
parse_digits (c ∷ cs) = if all_digits (c ∷ cs) then some (digits_value 0 (c ∷ cs)) else none

unfoldable pub negated : Option ℕ → Option ℤ
negated none = none
negated (some n) = some (negate n)

unfoldable pub positive : Option ℕ → Option ℤ
positive none = none
positive (some n) = some (pos n)

-- `INTEGER_PATTERN` with `BigInt`, /^-?\d+$/.
unfoldable pub parse_integer : List ℕ → Option ℤ
unfolding parse_digits negated positive
parse_integer [] = none
parse_integer (c ∷ cs) =
    if nat_eq c b'-' then negated (parse_digits cs) else positive (parse_digits (c ∷ cs))

-- `n.toString()` in front of `rest`; `fuel` is at least the number of digits.
unfoldable pub show_from : ℕ → ℕ → List ℕ → List ℕ
show_from zero n rest = rest
show_from (suc fuel) n rest =
    let more = show_from fuel (n / 10) ((48 + n % 10) ∷ rest) in
    if ltb n 10 then (48 + n) ∷ rest else more

unfoldable pub show_natural : ℕ → List ℕ
unfolding show_from
show_natural n = show_from (suc n) n []

unfoldable pub show_integer : ℤ → List ℕ
unfolding show_natural
show_integer (pos n) = show_natural n
show_integer (negsuc n) = b'-' ∷ show_natural (suc n)
