-- ===== src/Sessions/Tariffs.antt =====
-- tariff-calculator.ts, over an interface of the floating-point numbers.
use ev_charge_platform.Prelude.{ℕ, ℤ, String, Bool, Option, List, if◌then◌else◌}

-- What the program uses of JavaScript's `number`, and of the columns that store one: `to_column p s`
-- is the number read back from a `Decimal(p, s)` column, if the column can hold it, and
-- `increment_column p s` what `{ increment: … }` makes of such a column.
pub record Doubles (D : Type 0) : Type 0 where
  pub of_integer : ℤ → D
  pub add : D → D → D
  pub multiply : D → D → D
  pub divide : D → D → D
  pub maximum : D → D → D
  pub minimum : D → D → D
  pub round : D → D
  pub epsilon : D
  pub co2_per_kwh : D
  pub at_most : D → D → Bool
  pub is_finite : D → Bool
  pub to_column : ℕ → ℕ → D → Option D
  pub increment_column : ℕ → ℕ → D → D → Option D
  pub decimal_text : D → List ℕ

pub record TariffSnapshot (D : Type 0) : Type 0 where
  pub activation_fee : D
  pub currency : String
  pub initial_battery_percent : D
  pub name : Option String
  pub parking_fee_hour : D
  pub price_per_kwh : D

pub record ChargingPrice (D : Type 0) : Type 0 where
  pub activation_fee : D
  pub energy_amount : D
  pub parking_fee : D
  pub total_amount : D

module _ {D : Type 0} ⦃f : Doubles D⦄ where
  abbrev pub whole : ℕ → D
  whole n = f.of_integer (ℤ.pos n)

  unfoldable pub round_money : D → D
  round_money value =
      f.divide (f.round (f.multiply (f.add value f.epsilon) (whole 100))) (whole 100)

  unfoldable pub calculate_charging_price : D → D → TariffSnapshot D → ChargingPrice D
  calculate_charging_price energy duration tariff =
      let normalized_energy = f.maximum (whole 0) energy in
      let normalized_duration = f.maximum (whole 0) duration in
      let energy_amount = round_money (f.multiply normalized_energy tariff.price_per_kwh) in
      let parking_fee =
        round_money
          (f.multiply (f.divide normalized_duration (whole 3600)) tariff.parking_fee_hour) in
      record {
        activation_fee = round_money tariff.activation_fee;
        energy_amount = energy_amount;
        parking_fee = parking_fee;
        total_amount = round_money (f.add (f.add tariff.activation_fee energy_amount) parking_fee);
      }

  unfoldable pub estimate_battery_percent : D → D → D → D
  estimate_battery_percent initial energy capacity =
      if f.at_most capacity (whole 0)
      then initial
      else f.minimum (whole 100) (
          f.maximum (whole 0)
            (f.round (f.add initial (f.multiply (f.divide energy capacity) (whole 100)))))
