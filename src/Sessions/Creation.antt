-- ===== src/Sessions/Creation.antt =====
-- charging.service.ts: the transaction of `create`.
use ev_charge_platform.Prelude.{
  ℕ, suc, ltb, leb, nat_eq, ℕ_eq, String, Bool, true, false, not, ◌&&◌, ◌||◌, Option, none, some,
  List, [], ◌∷◌, any, find, update, ◌==◌, String_eq, Tx, ok, err, pure, ◌>>=◌, ◌>>◌, conflict,
  not_found, connector_unavailable, connector_concurrency_conflict, unique_violation, if◌then◌else◌,
}
use ev_charge_platform.Database.{AuthUser, SessionStatus, ConnectorStatus, ConnectorStatus_eq}
use ev_charge_platform.Charging.{is_active_charging_session_state}
use ev_charge_platform.Sessions.Tariffs.{Doubles, whole}
use ev_charge_platform.Sessions.Rows.{
  Station, Connector, Vehicle, Tariff, SnapshotDocument, ChargingSession, ChargingDb, station_id_of,
  connector_id_of,
}
use ev_charge_platform.Sessions.Statements.{write_audit, publish, with_connector_status}

pub record CreateChargingSession : Type 0 where
  pub connector_id : ℕ
  pub vehicle_id : ℕ

abbrev not_after : ℕ → Option ℕ → Bool
not_after now none = true
not_after now (some until) = ltb now until

abbrev open_station : ℕ → Option Station → Bool
open_station tenant none = false
open_station tenant (some s) = not s.deleted && nat_eq s.tenant_id tenant

module _ {D : Type 0} where
  -- `vehicle.findFirst`
  unfoldable pub find_vehicle : ℕ → ℕ → List (Vehicle D) → Option (Vehicle D)
  find_vehicle id user [] = none
  find_vehicle id user (v ∷ vs) =
      if not v.deleted && nat_eq v.id id && nat_eq v.user_id user
      then some v
      else find_vehicle id user vs

  -- `connector.findFirst` with the tables joined to it.
  unfoldable pub find_connector : ℕ → ℕ → ChargingDb D → Option (Connector D)
  find_connector id tenant db = elim (find connector_id_of id db.connectors) [
    | none ↦ none
    | some c ↦
        if not c.deleted
          && not c.evse_deleted
          && not c.charge_point_deleted
          && open_station tenant (find station_id_of c.station_id db.stations)
        then some c
        else none
  ]

  unfoldable pub is_valid_tariff : ℕ → ℕ → Tariff D → Bool
  is_valid_tariff station now t =
      not t.deleted
      && nat_eq t.station_id station
      && leb t.valid_from now
      && not_after now t.valid_until

  abbrev later_tariff : Tariff D → Option (Tariff D) → Tariff D
  later_tariff t none = t
  later_tariff t (some u) = if ltb t.valid_from u.valid_from then u else t

  -- `tariff.findFirst`: of the valid tariffs of the station the one that is valid the latest from.
  unfoldable pub find_tariff : ℕ → ℕ → List (Tariff D) → Option (Tariff D)
  unfolding is_valid_tariff
  find_tariff station now [] = none
  find_tariff station now (t ∷ ts) =
      let rest = find_tariff station now ts in
      if is_valid_tariff station now t then some (later_tariff t rest) else rest

  -- `connector.updateMany` and the test of its count.
  unfoldable pub reserve_connector : Connector D → Tx (ChargingDb D) (Unit {0})
  reserve_connector c db = elim (find connector_id_of c.id db.connectors) [
    | none ↦ err connector_concurrency_conflict
    | some row ↦
        if row.status == ConnectorStatus.available && nat_eq row.version c.version
        then ok (
          tt,
          record db {
            connectors =
                update connector_id_of c.id (with_connector_status ConnectorStatus.reserved)
                  db.connectors;
          },
        )
        else err connector_concurrency_conflict
  ]

  -- The two unique indexes of the sessions.
  unfoldable pub session_clashes : ChargingSession D → ChargingSession D → Bool
  session_clashes new old =
      (nat_eq new.user_id old.user_id && new.idempotency_key == old.idempotency_key)
      || (nat_eq new.connector_id old.connector_id
          && not old.deleted
          && is_active_charging_session_state old.status)

  unfoldable pub insert_session : ChargingSession D → Tx (ChargingDb D) (ChargingSession D)
  unfolding session_clashes
  insert_session new db =
      if any (session_clashes new) db.sessions
      then err unique_violation
      else ok (new, record db { sessions = new ∷ db.sessions; next_id = suc db.next_id })

module _ {D : Type 0} ⦃f : Doubles D⦄ where
  abbrev pub tariff_document : Tariff D → SnapshotDocument D
  tariff_document t = record {
    activation_fee = some t.activation_fee;
    currency = some t.currency;
    initial_battery_percent = some (whole 30);
    name = some t.name;
    parking_fee_hour = some t.parking_fee_hour;
    price_per_kwh = some t.price_per_kwh;
  }

  abbrev pub new_session :
      Connector D → Vehicle D → Tariff D → AuthUser → String → ℕ → ℕ → ChargingSession D
  new_session c vehicle tariff user idempotency_key now id = record {
    id = id;
    user_id = user.sub;
    vehicle_id = vehicle.id;
    station_id = c.station_id;
    charge_point_id = c.charge_point_id;
    evse_id = c.evse_id;
    connector_id = c.id;
    tariff_id = tariff.id;
    idempotency_key = idempotency_key;
    status = SessionStatus.pending;
    meter_start_wh = none;
    meter_stop_wh = none;
    started_at = none;
    stopped_at = none;
    completed_at = none;
    failure_reason = none;
    tariff_snapshot = tariff_document tariff;
    energy_kwh = whole 0;
    current_power_kw = whole 0;
    estimated_cost = whole 0;
    total_amount = whole 0;
    created_at = now;
    deleted = false;
    version = 1;
  }

  -- The writes, once the rows that they need were read.
  unfoldable pub create_at :
      Connector D
      → Vehicle D
      → Tariff D
      → AuthUser
      → String
      → ℕ
      → ℕ
      → Tx (ChargingDb D) (ChargingSession D)
  unfolding reserve_connector insert_session write_audit publish
  create_at c vehicle tariff user idempotency_key correlation now = do
    reserve_connector c
    created ←
        λ db. insert_session (new_session c vehicle tariff user idempotency_key now db.next_id) db
    write_audit (record {
      action = "CHARGING_SESSION_CREATED";
      entity_type = "ChargingSession";
      entity_id = created.id;
      tenant_id = user.tenant_id;
      user_id = some user.sub;
      correlation_id = some correlation;
    })
    publish (record {
      aggregate_type = "ChargingSession";
      aggregate_id = created.id;
      event_type = "ChargingSessionCreated";
      tenant_id = user.tenant_id;
    })
    pure created

  unfoldable pub create_on :
      Connector D → Vehicle D → AuthUser → String → ℕ → ℕ → Tx (ChargingDb D) (ChargingSession D)
  unfolding find_tariff create_at
  create_on c vehicle user idempotency_key correlation now db =
      if not (c.status == ConnectorStatus.available)
      then err connector_unavailable
      else elim (find_tariff c.station_id now db.tariffs) [
        | none ↦ err conflict
        | some tariff ↦ create_at c vehicle tariff user idempotency_key correlation now db
      ]

  -- The transaction of `create`.
  unfoldable pub create_body :
      CreateChargingSession → AuthUser → String → ℕ → ℕ → Tx (ChargingDb D) (ChargingSession D)
  unfolding find_vehicle find_connector create_on
  create_body input user idempotency_key correlation now db =
      elim (find_vehicle input.vehicle_id user.sub db.vehicles) [
        | none ↦ err not_found
        | some vehicle ↦ elim (find_connector input.connector_id user.tenant_id db) [
          | none ↦ err not_found
          | some c ↦ create_on c vehicle user idempotency_key correlation now db
        ]
      ]
