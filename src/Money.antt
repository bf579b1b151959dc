-- ===== src/Money.antt =====
-- Amounts of money in minor units (apps/backend/src/payments/money/money.ts). A `bigint` is an
-- integer; a text that the code walks is the list of its character codes.
mod Text
pub mod Decimal
pub mod Laws
pub mod Printing
pub mod Rounding
pub mod Calculator
mod Tests
unfoldable pub use Text.*
use Prim.Native.Char.{code}
use ev_charge_platform.Prelude.{
  ℕ, ◌≤◌, ℤ, pos, negsuc, ◌+ℤ◌, ◌-ℤ◌, ltb_ℤ, leb_ℤ, eq_ℤ, String, ◌==◌, String_eq, Bool, true,
  false, not, ◌&&◌, ◌||◌, Option, none, some, List, [], ◌∷◌, leb, if◌then◌else◌, Result, ok, err,
  range_error, type_error, bind_result,
}

pub record MoneyOptions : Type 0 where
  pub allow_negative : Bool
  pub maximum_amount_minor : Option ℤ

abbrev pub no_options : MoneyOptions
no_options = record { allow_negative = false; maximum_amount_minor = none }

abbrev pub default_maximum_amount_minor : ℤ
default_maximum_amount_minor = pos 100_000_000_000

pub record Money : Type 0 where
  pub amount_minor : ℤ
  pub currency : String
  pub maximum_amount_minor : ℤ

pub record MoneyHttp : Type 0 where
  pub amount_minor : List ℕ
  pub currency : String

-- `bigint | string`
pub data MinorUnits : Type 0 where
  bigint : ℤ → MinorUnits
  text : List ℕ → MinorUnits

-- `CURRENCY_PATTERN`, /^[A-Z]{3}$/, on the characters of the text.
abbrev pub is_upper : ℕ → Bool
is_upper c = leb b'A' c && leb c b'Z'

unfoldable pub matches_currency : String → Bool
matches_currency (String.◌∷◌ a (String.◌∷◌ b (String.◌∷◌ c String.[]))) =
    is_upper (code a) && is_upper (code b) && is_upper (code c)
matches_currency _ = false

unfoldable pub normalized_currency : String → Result String
unfolding matches_currency
normalized_currency value = if matches_currency value then ok value else err range_error

unfoldable pub parsed_minor_units : MinorUnits → Result ℤ
unfolding parse_integer
parsed_minor_units (bigint value) = ok value
parsed_minor_units (text value) = elim (parse_integer value) [
  | none ↦ err type_error
  | some n ↦ ok n
]

abbrev pub maximum_of : MoneyOptions → ℤ
maximum_of options = elim options.maximum_amount_minor [
  | none ↦ default_maximum_amount_minor
  | some m ↦ m
]

-- `amount < 0n ? -amount : amount`
unfoldable pub magnitude : ℤ → ℤ
unfolding ◌-ℤ◌
magnitude amount = if ltb_ℤ amount (pos 0) then pos 0 -ℤ amount else amount

unfoldable pub assert_bounds : ℤ → MoneyOptions → Result (Unit {0})
unfolding magnitude
assert_bounds amount options =
    if leb_ℤ (maximum_of options) (pos 0)
    then err range_error
    else if not options.allow_negative && ltb_ℤ amount (pos 0)
    then err range_error
    else if ltb_ℤ (maximum_of options) (magnitude amount)
    then err range_error
    else ok tt

unfoldable pub from_minor_units : MinorUnits → String → MoneyOptions → Result Money
unfolding parsed_minor_units assert_bounds normalized_currency
from_minor_units value currency options = bind_result (parsed_minor_units value) λ amount.
    bind_result (assert_bounds amount options) λ _. bind_result (normalized_currency currency) λ c.
      ok (record { amount_minor = amount; currency = c; maximum_amount_minor = maximum_of options })

unfoldable pub zero_money : String → MoneyOptions → Result Money
unfolding from_minor_units
zero_money currency options = from_minor_units (bigint (pos 0)) currency options

unfoldable pub is_zero : Money → Bool
is_zero m = eq_ℤ m.amount_minor (pos 0)

unfoldable pub is_negative : Money → Bool
is_negative m = ltb_ℤ m.amount_minor (pos 0)

unfoldable pub assert_same_currency : Money → Money → Result (Unit {0})
assert_same_currency a b = if a.currency == b.currency then ok tt else err range_error

unfoldable pub add : Money → Money → Result Money
unfolding assert_same_currency from_minor_units is_negative ◌+ℤ◌
add a b = bind_result (assert_same_currency a b) λ _.
    from_minor_units (bigint (a.amount_minor +ℤ b.amount_minor)) a.currency (record {
      allow_negative = is_negative a || is_negative b;
      maximum_amount_minor = some a.maximum_amount_minor;
    })

-- `subtract`, whose only option is `allowNegative`.
unfoldable pub subtract : Money → Money → Bool → Result Money
unfolding assert_same_currency from_minor_units ◌-ℤ◌
subtract a b allow_negative = bind_result (assert_same_currency a b) λ _.
    from_minor_units (bigint (a.amount_minor -ℤ b.amount_minor)) a.currency (record {
      allow_negative = allow_negative;
      maximum_amount_minor = some a.maximum_amount_minor;
    })

-- `-1 | 0 | 1`
pub data Sign : Type 0 where
  minus_one zero_sign one : Sign

unfoldable pub compare_money : Money → Money → Result Sign
unfolding assert_same_currency
compare_money a b = bind_result (assert_same_currency a b) λ _. ok (
    if eq_ℤ a.amount_minor b.amount_minor
    then zero_sign
    else if ltb_ℤ a.amount_minor b.amount_minor
    then minus_one
    else one)

unfoldable pub equals : Money → Money → Bool
equals a b = a.currency == b.currency && eq_ℤ a.amount_minor b.amount_minor

unfoldable pub to_http : Money → MoneyHttp
unfolding show_integer
to_http m = record { amount_minor = show_integer m.amount_minor; currency = m.currency }
