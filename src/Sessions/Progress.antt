-- ===== src/Sessions/Progress.antt =====
-- charging.service.ts: the transactions that move a session on, from its start to its completion.
use ev_charge_platform.Prelude.{
  ℕ, ◌+◌, ℤ, ◌-ℤ◌, ltb_ℤ, nat_eq, ℕ_eq, Bool, true, false, not, ◌&&◌, ◌||◌, Option, none, some,
  find, update, ◌==◌, Tx, ok, err, pure, throw_if, or_throw, gets, lift, modify, ◌>>=◌, ◌>>◌,
  conflict, not_found, connector_unavailable, invalid_session_state, if◌then◌else◌,
}
use ev_charge_platform.Database.{
  AuthUser, SessionStatus, SessionStatus_eq, ConnectorStatus, ConnectorStatus_eq,
}
use ev_charge_platform.Sessions.Tariffs.{Doubles, whole, calculate_charging_price}
use ev_charge_platform.Sessions.Rows.{
  Connector, ChargingSession, ChargingDb, UserTotals, connector_id_of, session_id_of, user_id_of,
}
use ev_charge_platform.Sessions.Presenter.{
  default_to, read_tariff_snapshot, session_duration_seconds,
}
use ev_charge_platform.Sessions.Statements.{
  SessionChange, no_change, set_connector_status, held, transition,
}

-- `{ invokeGateway, session }`
pub record Prepared (D : Type 0) : Type 0 where
  pub invoke_gateway : Bool
  pub session : ChargingSession D

-- `StartChargeResult`
pub record StartChargeResult (D : Type 0) : Type 0 where
  pub meter_start_wh : ℤ
  pub power_kw : D

-- `!connector || status in (OFFLINE, OCCUPIED, MAINTENANCE)`
abbrev pub cannot_start : {D : Type 0} → Option (Connector D) → Bool
cannot_start none = true
cannot_start (some c) =
    c.status == ConnectorStatus.offline
    || c.status == ConnectorStatus.occupied
    || c.status == ConnectorStatus.maintenance

-- `Number(meterWh - (meterStartWh ?? meterWh)) / 1000`
unfoldable pub energy_between : {D : Type 0} ⦃f : Doubles D⦄ → ℤ → ℤ → D
energy_between ⦃f⦄ start stop = f.divide (f.of_integer (stop -ℤ start)) (whole 1000)

-- `meterStopWh < meterStartWh ? meterStartWh : meterStopWh`
unfoldable pub normalized_stop : ℤ → ℤ → ℤ
normalized_stop start stop = if ltb_ℤ stop start then start else stop

module _ {D : Type 0} where
  -- `chargingSession.findFirst` of a user, and `loadSession`.
  unfoldable pub load_session : ℕ → ℕ → Tx (ChargingDb D) (ChargingSession D)
  load_session id user db = elim (find session_id_of id db.sessions) [
    | none ↦ err not_found
    | some s ↦ if not s.deleted && nat_eq s.user_id user then ok (s, db) else err not_found
  ]

  -- `chargingSession.findUnique` and the test for null.
  unfoldable pub read_session : ℕ → Tx (ChargingDb D) (ChargingSession D)
  read_session id db = elim (find session_id_of id db.sessions) [
    | none ↦ err not_found
    | some s ↦ ok (s, db)
  ]

module _ {D : Type 0} ⦃f : Doubles D⦄ where
  -- The second transaction of `create`, after the payment was authorized.
  unfoldable pub authorize_body : ℕ → AuthUser → ℕ → Tx (ChargingDb D) (ChargingSession D)
  unfolding read_session transition
  authorize_body id user correlation = do
    current ← read_session id
    if current.status == SessionStatus.authorized
        then pure current
        else transition current SessionStatus.authorized user correlation no_change

  unfoldable pub start_authorized :
      ChargingSession D → AuthUser → ℕ → Tx (ChargingDb D) (Prepared D)
  unfolding transition
  start_authorized session user correlation = do
    throw_if (not (session.status == SessionStatus.authorized)) invalid_session_state
    found ← gets λ db. find connector_id_of session.connector_id db.connectors
    throw_if (cannot_start found) connector_unavailable
    starting ← transition session SessionStatus.starting user correlation no_change
    pure (record { invoke_gateway = true; session = starting })

  -- The first transaction of `start`.
  unfoldable pub prepare_start : ℕ → AuthUser → ℕ → Tx (ChargingDb D) (Prepared D)
  unfolding load_session start_authorized
  prepare_start id user correlation = do
    session ← load_session id user.sub
    if session.status == SessionStatus.starting || session.status == SessionStatus.charging
        then pure (record { invoke_gateway = false; session = session })
        else start_authorized session user correlation

  unfoldable pub activate_starting :
      ChargingSession D
      → AuthUser
      → ℕ
      → StartChargeResult D
      → ℕ
      → Tx (ChargingDb D) (ChargingSession D)
  unfolding set_connector_status transition
  activate_starting current user correlation accepted now = do
    throw_if (not (current.status == SessionStatus.starting)) conflict
    set_connector_status current.connector_id ConnectorStatus.occupied
    transition current SessionStatus.charging user correlation (record no_change {
      current_power_kw = some accepted.power_kw;
      meter_start_wh = some accepted.meter_start_wh;
      started_at = some now;
    })

  -- The second transaction of `start`, when the charger has accepted.
  unfoldable pub activate :
      ℕ → AuthUser → ℕ → StartChargeResult D → ℕ → Tx (ChargingDb D) (ChargingSession D)
  unfolding read_session activate_starting
  activate id user correlation accepted now = do
    current ← read_session id
    if current.status == SessionStatus.charging
        then pure current
        else activate_starting current user correlation accepted now

  unfoldable pub stop_charging : ChargingSession D → AuthUser → ℕ → Tx (ChargingDb D) (Prepared D)
  unfolding transition
  stop_charging session user correlation = do
    throw_if (not (session.status == SessionStatus.charging)) invalid_session_state
    stopping ← transition session SessionStatus.stopping user correlation no_change
    pure (record { invoke_gateway = true; session = stopping })

  -- The first transaction of `stop`.
  unfoldable pub prepare_stop : ℕ → AuthUser → ℕ → Tx (ChargingDb D) (Prepared D)
  unfolding load_session stop_charging
  prepare_stop id user correlation = do
    session ← load_session id user.sub
    if session.status == SessionStatus.completed || session.status == SessionStatus.stopping
        then pure (record { invoke_gateway = false; session = session })
        else stop_charging session user correlation

  abbrev pub add_energy : D → D → UserTotals D → UserTotals D
  add_energy co2 total u = record u {
    avoided_co2_kg = co2;
    total_energy_kwh = total;
    version = u.version + 1;
  }

  -- `user.update`
  unfoldable pub add_to_totals : ℕ → D → Tx (ChargingDb D) (Unit {0})
  add_to_totals user energy = do
    found ← gets λ db. find user_id_of user db.users
    u ← or_throw found not_found
    co2 ← lift (held (f.increment_column 12 3 u.avoided_co2_kg (f.multiply energy f.co2_per_kwh)))
    total ← lift (held (f.increment_column 12 3 u.total_energy_kwh energy))
    modify λ db. record db { users = update user_id_of user (add_energy co2 total) db.users }

  -- The columns that `completeSession` sets.
  unfoldable pub completion : ChargingSession D → ℤ → ℕ → SessionChange D
  unfolding energy_between normalized_stop read_tariff_snapshot session_duration_seconds
  completion current meter_stop now =
      let start = default_to meter_stop current.meter_start_wh in
      let stop = normalized_stop start meter_stop in
      let energy = energy_between start stop in
      let price =
        calculate_charging_price energy (whole (session_duration_seconds current now))
          (read_tariff_snapshot current.tariff_snapshot) in
      record no_change {
        completed_at = some now;
        current_power_kw = some (whole 0);
        energy_kwh = some energy;
        estimated_cost = some price.total_amount;
        meter_stop_wh = some stop;
        stopped_at = some (some now);
        total_amount = some price.total_amount;
      }

  unfoldable pub complete_stopping :
      ChargingSession D → AuthUser → ℕ → ℤ → ℕ → Tx (ChargingDb D) (ChargingSession D)
  unfolding set_connector_status transition add_to_totals
  complete_stopping current user correlation meter_stop now = do
    throw_if (not (current.status == SessionStatus.stopping)) conflict
    set_connector_status current.connector_id ConnectorStatus.available
    completed ←
        transition current SessionStatus.completed user correlation
          (completion current meter_stop now)
    add_to_totals current.user_id (
        let start = default_to meter_stop current.meter_start_wh in
        energy_between start (normalized_stop start meter_stop))
    pure completed

  -- The transaction of `completeSession`.
  unfoldable pub complete_body : ℕ → AuthUser → ℕ → ℤ → ℕ → Tx (ChargingDb D) (ChargingSession D)
  unfolding read_session complete_stopping
  complete_body id user correlation meter_stop now = do
    current ← read_session id
    if current.status == SessionStatus.completed
        then pure current
        else complete_stopping current user correlation meter_stop now
