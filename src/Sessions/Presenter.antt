-- ===== src/Sessions/Presenter.antt =====
-- charging-session.presenter.ts: the tariff snapshot, the duration and the metrics of a session.
use ev_charge_platform.Prelude.{ℕ, ◌-◌, ◌/◌, Option, none, some, if◌then◌else◌}
use ev_charge_platform.Database.{SessionStatus}
use ev_charge_platform.Sessions.Tariffs.{
  Doubles, TariffSnapshot, whole, calculate_charging_price, estimate_battery_percent,
}
use ev_charge_platform.Sessions.Rows.{SnapshotDocument, ChargingSession}

pub record ChargingSessionMetrics (D : Type 0) : Type 0 where
  pub current_power_kw : D
  pub elapsed_seconds : ℕ
  pub energy_kwh : D
  pub estimated_battery_percent : D
  pub estimated_cost : D
  pub occurred_at : ℕ
  pub session_id : ℕ
  pub status : SessionStatus

abbrev pub default_to {ℓ} : {A : Type ℓ} → A → Option A → A
default_to fallback none = fallback
default_to fallback (some value) = value

-- `session.completedAt ?? session.stoppedAt ?? now`
abbrev end_time : Option ℕ → Option ℕ → ℕ → ℕ
end_time completed stopped now = default_to (default_to now stopped) completed

-- A negative difference is floored below 0 and then raised to 0, as `-` on ℕ does.
abbrev seconds_since : Option ℕ → ℕ → ℕ
seconds_since none end = 0
seconds_since (some started) end = (end - started) / 1000

module _ {D : Type 0} where
  unfoldable pub session_duration_seconds : ChargingSession D → ℕ → ℕ
  session_duration_seconds s now =
      seconds_since s.started_at (end_time s.completed_at s.stopped_at now)

module _ {D : Type 0} ⦃f : Doubles D⦄ where
  -- `Number(source[key])` where that is finite.
  abbrev pub number_field : Option D → D → D
  number_field none fallback = fallback
  number_field (some value) fallback = if f.is_finite value then value else fallback

  unfoldable pub read_tariff_snapshot : SnapshotDocument D → TariffSnapshot D
  read_tariff_snapshot source = record {
    activation_fee = number_field source.activation_fee (whole 0);
    currency = default_to "BRL" source.currency;
    initial_battery_percent = number_field source.initial_battery_percent (whole 30);
    name = source.name;
    parking_fee_hour = number_field source.parking_fee_hour (whole 0);
    price_per_kwh = number_field source.price_per_kwh (whole 0);
  }

  -- `capacity` is the column of the session's vehicle.
  unfoldable pub to_charging_session_metrics : ChargingSession D → D → ℕ → ChargingSessionMetrics D
  unfolding read_tariff_snapshot session_duration_seconds
  to_charging_session_metrics s capacity now =
      let tariff = read_tariff_snapshot s.tariff_snapshot in
      let duration = session_duration_seconds s now in
      let price = calculate_charging_price s.energy_kwh (whole duration) tariff in
      record {
        current_power_kw = s.current_power_kw;
        elapsed_seconds = duration;
        energy_kwh = s.energy_kwh;
        estimated_battery_percent =
            estimate_battery_percent tariff.initial_battery_percent s.energy_kwh capacity;
        estimated_cost = price.total_amount;
        occurred_at = now;
        session_id = s.id;
        status = s.status;
      }
