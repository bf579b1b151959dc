-- ===== src/Money/Tests.antt =====
-- Runs of the money code, and each of its theorems at an input that meets its hypotheses.
use Prim.Native.Char.{code}
use ev_charge_platform.Prelude.{
  ℕ, ◌+◌, ◌*◌, ◌≤◌, ◌<◌, ◌≡◌, refl, pos, negsuc, ◌+ℤ◌, ◌-ℤ◌, ◌*ℤ◌, ◌≤ℤ◌, String, true, false, none,
  ok, err, range_error, type_error, List, [], ◌∷◌, All, arith, leb_ℤ, if◌then◌else◌,
}
use ev_charge_platform.Money.{
  Money, default_maximum_amount_minor, no_options, text, from_minor_units, add, subtract, to_http,
}
use ev_charge_platform.Money.Text.{digits_value}
use ev_charge_platform.Money.Decimal.{from_decimal}
use ev_charge_platform.Money.Laws.{IsBounded, from_minor_units-IsBounded, add-eq, subtract-exact}
use ev_charge_platform.Money.Printing.{from_minor_units-to_http}
use ev_charge_platform.Money.Rounding.{decimal_text, from_decimal-nearest}
use ev_charge_platform.Money.Calculator.{
  rounded_quotient, multiply_ratio, sum_money, total_minor, sum_money_exact, multiply_ratio-nearest,
}

abbrev codes : String → List ℕ
codes String.[] = []
codes (String.◌∷◌ c s) = code c ∷ codes s

abbrev reais : ℕ → Money
reais n = record {
  amount_minor = pos n;
  currency = "BRL";
  maximum_amount_minor = pos 100_000_000_000;
}

reads_decimal : from_decimal (codes "12.345") "BRL" no_options ≡ ok (reais 1235)
unfolding from_decimal
reads_decimal = refl

refuses_negative : from_minor_units (text (codes "-7")) "BRL" no_options ≡ err range_error
unfolding from_minor_units
refuses_negative = refl

refuses_comma : from_decimal (codes "1,5") "BRL" no_options ≡ err type_error
unfolding from_decimal
refuses_comma = refl

made : from_minor_units (text (codes "1250")) "BRL" no_options ≡ ok (reais 1250)
unfolding from_minor_units
made = refl

from_minor_units-IsBounded_example : IsBounded (reais 1250) × (false ≡ false → pos 0 ≤ℤ pos 1250)
from_minor_units-IsBounded_example =
    from_minor_units-IsBounded (text (codes "1250")) "BRL" no_options made

from_minor_units-to_http_example :
    from_minor_units
      (text (to_http (reais 1250)).amount_minor)
      (to_http (reais 1250)).currency
      no_options
    ≡ ok (reais 1250)
from_minor_units-to_http_example =
    from_minor_units-to_http (text (codes "1250")) "BRL" no_options made

reais_1250-IsBounded : IsBounded (reais 1250)
reais_1250-IsBounded = from_minor_units-IsBounded_example.0

add-eq_example : add (reais 1250) (reais 1250) ≡ (
    if leb_ℤ (pos 1250 +ℤ pos 1250) (pos 100_000_000_000)
    then ok (record {
      amount_minor = pos 1250 +ℤ pos 1250;
      currency = "BRL";
      maximum_amount_minor = pos 100_000_000_000;
    })
    else err range_error)
add-eq_example =
    add-eq (reais 1250) (reais 1250) reais_1250-IsBounded reais_1250-IsBounded refl (omega arith)
      (omega arith)

subtracted : subtract (reais 1250) (reais 250) false ≡ ok (reais 1000)
unfolding subtract
subtracted = refl

subtract-exact_example :
    (pos 1000 ≡ pos 1250 -ℤ pos 250)
    × (◌≡◌ {A = String} "BRL" "BRL")
    × (◌≡◌ {A = String} "BRL" "BRL")
    × (pos 1000 ≤ℤ pos 100_000_000_000)
    × (false ≡ false → pos 250 ≤ℤ pos 1250)
subtract-exact_example = subtract-exact (reais 1250) (reais 250) false (reais 1000) subtracted

minus_price :
    from_decimal
      (decimal_text true (codes "12") (codes "345"))
      "BRL"
      (record { allow_negative = true; maximum_amount_minor = none })
    ≡ ok (record {
      amount_minor = negsuc 1234;
      currency = "BRL";
      maximum_amount_minor = default_maximum_amount_minor;
    })
unfolding from_decimal
minus_price = refl

from_decimal-nearest_example :
    (n : ℕ) × (negsuc 1234 ≡ pos 0 -ℤ pos n)
    × (n * 1000 * 2 ≤ 12345 * 100 * 2 + 1000)
    × (12345 * 100 * 2 < n * 1000 * 2 + 1000)
unfolding digits_value
from_decimal-nearest_example =
    from_decimal-nearest true b'1' (codes "2") (codes "345") "BRL"
      (record { allow_negative = true; maximum_amount_minor = none }) refl refl minus_price

summed : sum_money (reais 3 ∷ reais 4 ∷ []) "BRL" ≡ ok (reais 7)
unfolding sum_money add
summed = refl

sum_money_exact_example :
    (pos 7 ≡ total_minor (reais 3 ∷ reais 4 ∷ []))
    × All (λ (v : Money). v.currency ≡ "BRL") (reais 3 ∷ reais 4 ∷ [])
sum_money_exact_example = sum_money_exact (reais 3 ∷ reais 4 ∷ []) "BRL" summed

thirds : multiply_ratio (reais 500) (pos 2) (pos 3) ≡ ok (reais 333)
unfolding multiply_ratio rounded_quotient ◌*ℤ◌ from_minor_units
thirds = refl

multiply_ratio-nearest_example :
    (r : ℕ) × (pos 333 ≡ pos r) × (r * 3 * 2 ≤ 500 * 2 * 2 + 3) × (500 * 2 * 2 < r * 3 * 2 + 3)
multiply_ratio-nearest_example = multiply_ratio-nearest (reais 500) 500 2 3 refl thirds
