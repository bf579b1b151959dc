-- ===== src/Sessions/Metering.antt =====
-- charging.service.ts: meter values.
use ev_charge_platform.Prelude.{
  ℕ, ℤ, pos, ltb_ℤ, nat_eq, ℕ_eq, String, Bool, false, not, ◌&&◌, ◌||◌, Option, none, some, List,
  [], ◌∷◌, find, ◌==◌, str_eq, Result, ok, err, Tx, pure, or_throw, gets, lift, ◌>>=◌, ◌>>◌,
  bind_result, conflict, bad_request, constraint_violation, if◌then◌else◌,
}
use ev_charge_platform.Database.{
  SessionStatus, SessionStatus_eq, ConnectorStatus, ConnectorStatus_eq,
}
use ev_charge_platform.Sessions.Tariffs.{Doubles, whole, calculate_charging_price}
use ev_charge_platform.Sessions.Rows.{
  Connector, ChargingSession, MeterValue, ChargingDb, connector_id_of, session_id_of,
}
use ev_charge_platform.Sessions.Presenter.{
  default_to, read_tariff_snapshot, session_duration_seconds,
}
use ev_charge_platform.Sessions.Statements.{
  SessionChange, no_change, set_connector_status, held, update_session,
}
use ev_charge_platform.Sessions.Progress.{energy_between}

-- charger-event-relay.ts; the time is that of the text `occurredAt`.
pub data ChargerEventType : Type 0 where
  meter_value stopped failed disconnected : ChargerEventType

pub record ChargerEvent (D : Type 0) : Type 0 where
  pub battery_percent : Option ℤ
  pub meter_wh : Option String
  pub occurred_at : ℕ
  pub power_kw : Option D
  pub reason : Option String
  pub recoverable : Bool
  pub session_id : ℕ
  pub event_type : ChargerEventType

-- A sample that has been read: its meter, its power and its state of charge.
pub record Sample (D : Type 0) : Type 0 where
  pub meter_wh : ℤ
  pub power_kw : D
  pub battery_percent : Option ℤ
  pub sampled_at : ℕ

-- `!input.meterWh` and `BigInt(input.meterWh)`, which throws on a text that is no integer.
unfoldable pub read_meter : (String → Option ℤ) → Option String → Result ℤ
read_meter big_int none = err bad_request
read_meter big_int (some text) =
    if str_eq text ""
    then err bad_request
    else elim (big_int text) [ none ↦ err bad_request | some wh ↦ ok wh ]

abbrev read_power : {D : Type 0} → Option D → Result D
read_power none = err bad_request
read_power (some power) = ok power

abbrev out_of_percent : Option ℤ → Bool
out_of_percent none = false
out_of_percent (some p) = ltb_ℤ p (pos 0) || ltb_ℤ (pos 100) p

module _ {D : Type 0} where
  -- The key of a meter value: its session and its time.
  abbrev pub same_sample : ℕ → ℕ → MeterValue D → Bool
  same_sample session at v = nat_eq v.charging_session_id session && nat_eq v.sampled_at at

  -- `meterValue.upsert`
  unfoldable pub upsert_sample : MeterValue D → List (MeterValue D) → List (MeterValue D)
  upsert_sample new [] = new ∷ []
  upsert_sample new (v ∷ vs) =
      let rest = upsert_sample new vs in
      if same_sample new.charging_session_id new.sampled_at v then new ∷ vs else v ∷ rest

  -- The checks of the table.
  unfoldable pub breaks_sample_check : MeterValue D → Bool
  breaks_sample_check v = ltb_ℤ v.meter_wh (pos 0) || out_of_percent v.battery_percent

  -- The meter that a session has started from, or `meter` where it has none.
  abbrev pub start_of : ChargingSession D → ℤ → ℤ
  start_of s meter = default_to meter s.meter_start_wh

  -- `currentPowerKw`, `energyKwh` and the others that a sample sets.
  abbrev pub is_offline : Option (Connector D) → Bool
  is_offline none = false
  is_offline (some c) = c.status == ConnectorStatus.offline

module _ {D : Type 0} ⦃f : Doubles D⦄ where
  unfoldable pub write_sample : MeterValue D → Tx (ChargingDb D) (Unit {0})
  unfolding upsert_sample breaks_sample_check
  write_sample v db =
      if breaks_sample_check v
      then err constraint_violation
      else ok (tt, record db { meter_values = upsert_sample v db.meter_values })

  unfoldable pub sample_change : ChargingSession D → Sample D → SessionChange D
  unfolding energy_between read_tariff_snapshot session_duration_seconds
  sample_change current sample =
      let energy = energy_between (start_of current sample.meter_wh) sample.meter_wh in
      let price =
        calculate_charging_price energy (whole (session_duration_seconds current sample.sampled_at))
          (read_tariff_snapshot current.tariff_snapshot) in
      record no_change {
        current_power_kw = some sample.power_kw;
        energy_kwh = some energy;
        failure_reason = some none;
        estimated_cost = some price.total_amount;
        meter_stop_wh = some sample.meter_wh;
        total_amount = some price.total_amount;
      }

  -- The writes behind the sample: the connector, if it was OFFLINE, and the session.
  unfoldable pub sample_session :
      ChargingSession D → Sample D → Tx (ChargingDb D) (Option (ChargingSession D))
  unfolding set_connector_status update_session sample_change
  sample_session current sample = do
    found ← gets λ db. find connector_id_of current.connector_id db.connectors
    if is_offline found
        then set_connector_status current.connector_id ConnectorStatus.occupied
        else pure tt
    updated ← update_session current SessionStatus.charging (sample_change current sample)
    row ← or_throw updated conflict
    pure (some row)

  abbrev pub sample_row : ChargingSession D → Sample D → D → D → MeterValue D
  sample_row current sample energy power = record {
    charging_session_id = current.id;
    sampled_at = sample.sampled_at;
    meter_wh = sample.meter_wh;
    energy_kwh = energy;
    power_kw = power;
    battery_percent = sample.battery_percent;
  }

  -- The writes of a sample to a session that is charging.
  unfoldable pub sample_charging :
      ChargingSession D → Sample D → Tx (ChargingDb D) (Option (ChargingSession D))
  unfolding write_sample sample_session energy_between
  sample_charging current sample = do
    energy ← lift (
        held (f.to_column 12 3 (energy_between (start_of current sample.meter_wh) sample.meter_wh)))
    power ← lift (held (f.to_column 8 2 sample.power_kw))
    write_sample (sample_row current sample energy power)
    sample_session current sample

  -- The transaction of `recordMeterValue`.
  unfoldable pub sample_body : ℕ → Sample D → Tx (ChargingDb D) (Option (ChargingSession D))
  unfolding sample_charging
  sample_body id sample db = elim (find session_id_of id db.sessions) [
    | none ↦ ok (none, db)
    | some current ↦
        if current.status == SessionStatus.charging
        then sample_charging current sample db
        else ok (none, db)
  ]

  -- The checks before that transaction, on the session as it was read: none for a session that is
  -- not charging.
  unfoldable pub read_sample :
      (String → Option ℤ) → ChargingSession D → ChargerEvent D → Result (Option (Sample D))
  unfolding read_meter
  read_sample big_int known input =
      if not (known.status == SessionStatus.charging)
      then ok none
      else bind_result (read_power input.power_kw) λ power.
        bind_result (read_meter big_int input.meter_wh) λ meter.
          if ltb_ℤ meter (start_of known meter)
          then err bad_request
          else ok (
              some (record {
                meter_wh = meter;
                power_kw = power;
                battery_percent = input.battery_percent;
                sampled_at = input.occurred_at;
              }))
