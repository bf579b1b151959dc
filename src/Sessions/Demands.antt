-- ===== src/Sessions/Demands.antt =====
-- What the completion of a session demands of its row, of the driver's row and of the columns.
use ev_charge_platform.Prelude.{ℕ, ℤ, ◌≡◌, ℕ_eq, true, false, some}
use ev_charge_platform.Database.{SessionStatus_eq}
use ev_charge_platform.Sessions.Tariffs.{Doubles, whole, calculate_charging_price}
use ev_charge_platform.Sessions.Rows.{ChargingSession, UserTotals}
use ev_charge_platform.Sessions.Presenter.{
  default_to, read_tariff_snapshot, session_duration_seconds,
}
use ev_charge_platform.Sessions.Statements.{later_first}
use ev_charge_platform.Sessions.Progress.{normalized_stop, energy_between}
use ev_charge_platform.Sessions.Prices.{◌≲◌}

-- The price of a session that is completed with a meter at a time.
abbrev pub final_price : {D : Type 0} ⦃f : Doubles D⦄ → ChargingSession D → ℤ → ℕ → D
final_price s meter now =
    (calculate_charging_price
      (energy_between (default_to meter s.meter_start_wh)
        (normalized_stop (default_to meter s.meter_start_wh) meter))
      (whole (session_duration_seconds s now))
      (read_tariff_snapshot s.tariff_snapshot)).total_amount

-- What completing a session needs: fees from 0 up, a duration that is a finite number, a start that
-- is not ahead of the clock, and columns that can hold the energy, the price and the new totals of
-- the driver.
pub record CanComplete {D : Type 0} ⦃f : Doubles D⦄ (s : ChargingSession D) (u : UserTotals D)
    (meter : ℤ) (now : ℕ) : Type 0 where
  pub activation_floor : whole 0 ≲ (read_tariff_snapshot s.tariff_snapshot).activation_fee
  pub parking_floor : whole 0 ≲ (read_tariff_snapshot s.tariff_snapshot).parking_fee_hour
  pub price_floor : whole 0 ≲ (read_tariff_snapshot s.tariff_snapshot).price_per_kwh
  pub duration_finite : f.is_finite (whole (session_duration_seconds s now)) ≡ true
  pub in_order : later_first s.started_at (some now) ≡ false
  pub no_power : D
  pub no_power_fits : f.to_column 8 2 (whole 0) ≡ some no_power
  pub energy : D
  pub energy_fits :
      f.to_column 12 3 (
        energy_between
          (default_to meter s.meter_start_wh)
          (normalized_stop (default_to meter s.meter_start_wh) meter))
      ≡ some energy
  pub price : D
  pub price_fits : f.to_column 12 2 (final_price s meter now) ≡ some price
  pub co2 : D
  pub total : D
  pub co2_fits :
      f.increment_column 12 3 u.avoided_co2_kg (
        f.multiply
          (energy_between
            (default_to meter s.meter_start_wh)
            (normalized_stop (default_to meter s.meter_start_wh) meter))
          f.co2_per_kwh)
      ≡ some co2
  pub total_fits :
      f.increment_column 12 3 u.total_energy_kwh (
        energy_between
          (default_to meter s.meter_start_wh)
          (normalized_stop (default_to meter s.meter_start_wh) meter))
      ≡ some total
