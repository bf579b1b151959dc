-- ===== src/Sessions/Rows.antt =====
-- The tables that the charging service reads and writes, as they stand between two statements. Time
-- is counted in milliseconds.
use ev_charge_platform.Prelude.{ℕ, ℤ, String, Bool, Option, List}
use ev_charge_platform.Database.{SessionStatus, ConnectorStatus, AuditEntry, DomainEvent}

pub record Station : Type 0 where
  pub id : ℕ
  pub tenant_id : ℕ
  pub deleted : Bool

-- A connector with the columns of its EVSE and of its charge point that a join reads.
pub record Connector (D : Type 0) : Type 0 where
  pub id : ℕ
  pub evse_id : ℕ
  pub evse_deleted : Bool
  pub charge_point_id : ℕ
  pub charge_point_deleted : Bool
  pub station_id : ℕ
  pub maximum_power_kw : D
  pub status : ConnectorStatus
  pub deleted : Bool
  pub version : ℕ

pub record Vehicle (D : Type 0) : Type 0 where
  pub id : ℕ
  pub user_id : ℕ
  pub battery_capacity_kwh : D
  pub deleted : Bool

pub record Tariff (D : Type 0) : Type 0 where
  pub id : ℕ
  pub station_id : ℕ
  pub name : String
  pub currency : String
  pub activation_fee : D
  pub parking_fee_hour : D
  pub price_per_kwh : D
  pub valid_from : ℕ
  pub valid_until : Option ℕ
  pub deleted : Bool

-- The totals of a row of `users`.
pub record UserTotals (D : Type 0) : Type 0 where
  pub id : ℕ
  pub avoided_co2_kg : D
  pub total_energy_kwh : D
  pub version : ℕ

-- The JSON document of a tariff snapshot: a numeric field is what `Number` makes of it, none standing
-- for NaN, and a text is there where the document has a text.
pub record SnapshotDocument (D : Type 0) : Type 0 where
  pub activation_fee : Option D
  pub currency : Option String
  pub initial_battery_percent : Option D
  pub name : Option String
  pub parking_fee_hour : Option D
  pub price_per_kwh : Option D

pub record ChargingSession (D : Type 0) : Type 0 where
  pub id : ℕ
  pub user_id : ℕ
  pub vehicle_id : ℕ
  pub station_id : ℕ
  pub charge_point_id : ℕ
  pub evse_id : ℕ
  pub connector_id : ℕ
  pub tariff_id : ℕ
  pub idempotency_key : String
  pub status : SessionStatus
  pub meter_start_wh : Option ℤ
  pub meter_stop_wh : Option ℤ
  pub started_at : Option ℕ
  pub stopped_at : Option ℕ
  pub completed_at : Option ℕ
  pub failure_reason : Option String
  pub tariff_snapshot : SnapshotDocument D
  pub energy_kwh : D
  pub current_power_kw : D
  pub estimated_cost : D
  pub total_amount : D
  pub created_at : ℕ
  pub deleted : Bool
  pub version : ℕ

pub record MeterValue (D : Type 0) : Type 0 where
  pub charging_session_id : ℕ
  pub sampled_at : ℕ
  pub meter_wh : ℤ
  pub energy_kwh : D
  pub power_kw : D
  pub battery_percent : Option ℤ

pub record ChargingDb (D : Type 0) : Type 0 where
  pub next_id : ℕ
  pub stations : List Station
  pub connectors : List (Connector D)
  pub vehicles : List (Vehicle D)
  pub tariffs : List (Tariff D)
  pub users : List (UserTotals D)
  pub sessions : List (ChargingSession D)
  pub meter_values : List (MeterValue D)
  pub audit_log : List AuditEntry
  pub outbox : List DomainEvent

abbrev pub station_id_of : Station → ℕ
station_id_of s = s.id

module _ {D : Type 0} where
  abbrev pub connector_id_of : Connector D → ℕ
  connector_id_of c = c.id

  abbrev pub vehicle_id_of : Vehicle D → ℕ
  vehicle_id_of v = v.id

  abbrev pub user_id_of : UserTotals D → ℕ
  user_id_of u = u.id

  abbrev pub session_id_of : ChargingSession D → ℕ
  session_id_of s = s.id
