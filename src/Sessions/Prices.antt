-- ===== src/Sessions/Prices.antt =====
-- Bounds of the amounts that the tariff calculator makes, from the laws of the numbers it uses.
use ev_charge_platform.Prelude.{
  ℕ, suc, ◌<◌, ℤ, pos, ◌≤ℤ◌, ◌≡◌, true, false, Option, none, some, Bool-cases, inl, inr, arith,
}
use ev_charge_platform.Sessions.Presenter.{number_field}
use ev_charge_platform.Sessions.Tariffs.{
  Doubles, TariffSnapshot, whole, round_money, calculate_charging_price, estimate_battery_percent,
}

-- 2 ^ 53: below it every whole number is a number of its own.
abbrev pub exact_limit : ℕ
exact_limit = 9007199254740992

infix 50 ◌≲◌
-- `x <= y`; NaN is not `<=` itself.
abbrev pub ◌≲◌ : {D : Type 0} ⦃f : Doubles D⦄ → D → D → Type 0
◌≲◌ ⦃f⦄ x y = f.at_most x y ≡ true

-- What the calculator relies on in the arithmetic of IEEE 754, where a finite number is neither an
-- infinity nor NaN. A product is only compared with 0 where both factors are finite, as 0 times
-- infinity is NaN, or where one is a whole number from 1 to `exact_limit`; so is a quotient.
pub record IsLawful (D : Type 0) ⦃f : Doubles D⦄ : Type 0 where
  pub integer_floor : (n : ℤ) → pos 0 ≤ℤ n → whole 0 ≲ f.of_integer n
  pub add_floor : (x y : D) → whole 0 ≲ x → whole 0 ≲ y → whole 0 ≲ f.add x y
  pub multiply_floor :
      (x y : D)
      → f.is_finite x ≡ true
      → f.is_finite y ≡ true
      → whole 0 ≲ x
      → whole 0 ≲ y
      → whole 0 ≲ f.multiply x y
  pub scale_floor :
      (x : D) (n : ℕ) → n < exact_limit → whole 0 ≲ x → whole 0 ≲ f.multiply x (whole (suc n))
  pub divide_floor :
      (x : D) (n : ℕ) → n < exact_limit → whole 0 ≲ x → whole 0 ≲ f.divide x (whole (suc n))
  pub divide_finite :
      (x : D) (n : ℕ)
      → n < exact_limit
      → f.is_finite x ≡ true
      → f.is_finite (f.divide x (whole (suc n))) ≡ true
  pub round_floor : (x : D) → whole 0 ≲ x → whole 0 ≲ f.round x
  pub epsilon_floor : whole 0 ≲ f.epsilon
  pub maximum_floor : (x : D) → x ≲ x → whole 0 ≲ f.maximum (whole 0) x
  pub maximum_finite : (x : D) → f.is_finite x ≡ true → f.is_finite (f.maximum (whole 0) x) ≡ true
  pub maximum_number : (x y : D) → x ≲ x → y ≲ y → f.maximum x y ≲ f.maximum x y
  pub minimum_bound : (x y : D) → x ≲ x → y ≲ y → f.minimum x y ≲ x
  pub minimum_floor : (x y : D) → whole 0 ≲ x → whole 0 ≲ y → whole 0 ≲ f.minimum x y
  pub finite_number : (x : D) → f.is_finite x ≡ true → x ≲ x
  pub integer_number : (n : ℤ) → f.of_integer n ≲ f.of_integer n
  pub small_finite : (n : ℕ) → n < exact_limit → f.is_finite (whole n) ≡ true
  pub column_floor : (p s : ℕ) (x y : D) → f.to_column p s x ≡ some y → whole 0 ≲ x → whole 0 ≲ y
  pub column_finite :
      (p s : ℕ) (x y : D) → f.to_column p s x ≡ some y → whole 0 ≲ x → f.is_finite x ≡ true

module _ {D : Type 0} ⦃f : Doubles D⦄ (laws : IsLawful D) where
  round_money-floor : (x : D) → whole 0 ≲ x → whole 0 ≲ round_money x
  unfolding round_money
  round_money-floor x h = laws.divide_floor _ 99 (omega arith) (
      laws.round_floor _
        (laws.scale_floor _ 99 (omega arith) (laws.add_floor x f.epsilon h laws.epsilon_floor)))

  -- A number of a snapshot that is read is finite.
  pub number_field-finite :
      (value : Option D) (n : ℕ)
      → n < exact_limit
      → f.is_finite (number_field value (whole n)) ≡ true
  number_field-finite none n h = laws.small_finite n h
  number_field-finite (some value) n h = elim (Bool-cases (f.is_finite value)) [
    | inl e ↦ rw e e
    | inr e ↦ rw e (laws.small_finite n h)
  ]

  -- Over numbers that obey the laws above: a finite energy and a finite duration, negative ones
  -- too, with fees from 0 up of which those for energy and parking are finite, never give a
  -- negative amount or one that is no number: not for the energy, the parking, the activation or in
  -- total.
  pub calculate_charging_price-floor :
      (energy duration : D) (tariff : TariffSnapshot D)
      → f.is_finite energy ≡ true
      → f.is_finite duration ≡ true
      → f.is_finite tariff.parking_fee_hour ≡ true
      → f.is_finite tariff.price_per_kwh ≡ true
      → whole 0 ≲ tariff.activation_fee
      → whole 0 ≲ tariff.parking_fee_hour
      → whole 0 ≲ tariff.price_per_kwh
      → (whole 0 ≲ (calculate_charging_price energy duration tariff).activation_fee)
        × (whole 0 ≲ (calculate_charging_price energy duration tariff).energy_amount)
        × (whole 0 ≲ (calculate_charging_price energy duration tariff).parking_fee)
        × (whole 0 ≲ (calculate_charging_price energy duration tariff).total_amount)
  unfolding calculate_charging_price
  calculate_charging_price-floor energy duration tariff e d fp fk a p k =
      let energy_floor = round_money-floor _ (
        laws.multiply_floor _ _ (laws.maximum_finite energy e) fk
          (laws.maximum_floor energy (laws.finite_number energy e)) k) in
      let parking_floor = round_money-floor _ (
        laws.multiply_floor _ _
          (laws.divide_finite _ 3599 (omega arith) (laws.maximum_finite duration d)) fp
          (laws.divide_floor _ 3599 (omega arith)
            (laws.maximum_floor duration (laws.finite_number duration d)))
          p) in
      (
        round_money-floor _ a,
        energy_floor,
        parking_floor,
        round_money-floor _ (laws.add_floor _ _ (laws.add_floor _ _ a energy_floor) parking_floor),
      )

  -- Over numbers that obey the laws above: the estimate of the charge of a battery with a capacity
  -- above 0 lies between 0 and 100, whatever the energy, if the rounded sum is a number.
  pub estimate_battery_percent-IsPercent :
      (initial energy capacity : D)
      → f.at_most capacity (whole 0) ≡ false
      → f.round (f.add initial (f.multiply (f.divide energy capacity) (whole 100)))
        ≲ f.round (f.add initial (f.multiply (f.divide energy capacity) (whole 100)))
      → (whole 0 ≲ estimate_battery_percent initial energy capacity)
        × (estimate_battery_percent initial energy capacity ≲ whole 100)
  unfolding estimate_battery_percent
  estimate_battery_percent-IsPercent initial energy capacity positive number = rw positive (
    laws.minimum_floor _ _ (laws.integer_floor (pos 100) (omega arith))
        (laws.maximum_floor _ number),
    laws.minimum_bound _ _ (laws.integer_number (pos 100))
        (laws.maximum_number _ _ (laws.integer_number (pos 0)) number),
  )
