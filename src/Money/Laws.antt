-- ===== src/Money/Laws.antt =====
-- What `Money` promises: bounds, and exact arithmetic in one currency.
use ev_charge_platform.Prelude.{
  ◌≡◌, ℤ, pos, leb_ℤ, ◌↔◌, if◌then◌else◌, ◌+ℤ◌, ◌-ℤ◌, ◌≤ℤ◌, ◌<ℤ◌, String, eq_iff, Bool, true, false,
  ok, err, range_error, arith,
}
use ev_charge_platform.Money.{
  Money, MoneyOptions, MinorUnits, maximum_of, matches_currency, assert_bounds, from_minor_units,
  add, subtract, minus_one, zero_sign, one, compare_money, equals,
}

-- What holds of an amount that was made within a maximum.
pub record IsBounded (m : Money) : Type 0 where
  pub above : m.amount_minor ≤ℤ m.maximum_amount_minor
  pub below : pos 0 -ℤ m.maximum_amount_minor ≤ℤ m.amount_minor
  pub room : pos 0 <ℤ m.maximum_amount_minor
  pub three_letters : matches_currency m.currency ≡ true

pub assert_bounds_lem :
    (n : ℤ) (options : MoneyOptions)
    → assert_bounds n options ≡ ok tt
    → (n ≤ℤ maximum_of options) × (pos 0 -ℤ maximum_of options ≤ℤ n) × (pos 0 <ℤ maximum_of options)
unfolding assert_bounds ◌-ℤ◌
assert_bounds_lem n options h = ground arith

-- Every amount that `fromMinorUnits` makes lies within its maximum on both sides, its maximum is
-- positive and its currency is three capital letters; a negative one was allowed by the options.
pub from_minor_units-IsBounded :
    (v : MinorUnits) (currency : String) (options : MoneyOptions) {m : Money}
    → from_minor_units v currency options ≡ ok m
    → IsBounded m × (options.allow_negative ≡ false → pos 0 ≤ℤ m.amount_minor)
unfolding from_minor_units ◌-ℤ◌
from_minor_units-IsBounded v currency options h = ground arith

-- Two amounts of one currency, neither negative: the sum is exact, in the currency and under the
-- maximum of the left one, if it is at most that maximum, and is refused otherwise.
pub add-eq :
    (a b : Money)
    → IsBounded a
    → IsBounded b
    → a.currency ≡ b.currency
    → pos 0 ≤ℤ a.amount_minor
    → pos 0 ≤ℤ b.amount_minor
    → add a b ≡ (
        if leb_ℤ (a.amount_minor +ℤ b.amount_minor) a.maximum_amount_minor
        then ok (record a { amount_minor = a.amount_minor +ℤ b.amount_minor })
        else err range_error)
unfolding add
add-eq a b va vb c pa pb = ground (arith, eq_iff a.currency b.currency)

-- A difference that `subtract` returns is exact and no larger than the maximum, and is not
-- negative unless the caller allowed that; amounts of two currencies are refused.
pub subtract-exact :
    (a b : Money) (allow : Bool)
    → ((m : Money)
        → subtract a b allow ≡ ok m
        → (m.amount_minor ≡ a.amount_minor -ℤ b.amount_minor)
          × (m.currency ≡ a.currency)
          × (a.currency ≡ b.currency)
          × (m.amount_minor ≤ℤ a.maximum_amount_minor)
          × (allow ≡ false → b.amount_minor ≤ℤ a.amount_minor))
unfolding subtract
subtract-exact a b allow m h = ground (arith, eq_iff a.currency b.currency)

-- On amounts of one currency the three results of `compare` are the three cases of the order, and
-- `equals` is the case of the middle one.
pub compare_money-order :
    (a b : Money)
    → a.currency ≡ b.currency
    → ((compare_money a b ≡ ok minus_one) ↔ (a.amount_minor <ℤ b.amount_minor))
      × ((compare_money a b ≡ ok zero_sign) ↔ (a.amount_minor ≡ b.amount_minor))
      × ((compare_money a b ≡ ok one) ↔ (b.amount_minor <ℤ a.amount_minor))
      × ((equals a b ≡ true) ↔ (compare_money a b ≡ ok zero_sign))
unfolding compare_money equals
compare_money-order a b c = ground (arith, eq_iff a.currency b.currency)

-- What a sum that succeeds is, with no hypothesis on the amounts.
pub add_exact :
    (a b : Money) {m : Money}
    → add a b ≡ ok m
    → (m.amount_minor ≡ a.amount_minor +ℤ b.amount_minor)
      × (m.currency ≡ a.currency)
      × (b.currency ≡ a.currency)
unfolding add
add_exact a b h = ground (arith, eq_iff a.currency b.currency)
