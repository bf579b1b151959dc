-- ===== src/Sessions/Endings.antt =====
-- charging.service.ts: a disconnection that may recover, and the failure of a session.
use ev_charge_platform.Prelude.{
  ℕ, ℕ_eq, String, Bool, ◌||◌, Option, none, some, ◌==◌, Tx, pure, or_throw, ◌>>=◌, ◌>>◌,
  optimistic_lock_conflict, if◌then◌else◌,
}
use ev_charge_platform.Database.{AuthUser, SessionStatus, SessionStatus_eq, ConnectorStatus}
use ev_charge_platform.Charging.{is_terminal_charging_session_state}
use ev_charge_platform.Ocpp.{slice_units}
use ev_charge_platform.Sessions.Tariffs.{Doubles, whole}
use ev_charge_platform.Sessions.Rows.{ChargingSession, ChargingDb}
use ev_charge_platform.Sessions.Statements.{
  no_change, write_audit, publish, set_connector_status, update_session, transition,
}
use ev_charge_platform.Sessions.Progress.{read_session}

abbrev pub lost_connector : Bool → ConnectorStatus
lost_connector disconnected =
    if disconnected then ConnectorStatus.offline else ConnectorStatus.available

-- `current.startedAt ? new Date() : null`
abbrev stop_time : Option ℕ → ℕ → Option ℕ
stop_time none now = none
stop_time (some _) now = some now

module _ {D : Type 0} ⦃f : Doubles D⦄ where
  unfoldable pub disconnect_running :
      ChargingSession D → AuthUser → ℕ → String → Tx (ChargingDb D) (ChargingSession D)
  unfolding set_connector_status update_session write_audit publish slice_units
  disconnect_running current user correlation reason = do
    set_connector_status current.connector_id ConnectorStatus.offline
    updated ← update_session current current.status (record no_change {
      current_power_kw = some (whole 0);
      failure_reason = some (some (slice_units 500 reason));
    })
    recoverable ← or_throw updated optimistic_lock_conflict
    write_audit (record {
      action = "CHARGER_DISCONNECTED_RECOVERABLE";
      entity_type = "ChargingSession";
      entity_id = current.id;
      tenant_id = user.tenant_id;
      user_id = none;
      correlation_id = some correlation;
    })
    publish (record {
      aggregate_type = "ChargingSession";
      aggregate_id = current.id;
      event_type = "ChargingSessionChargerDisconnected";
      tenant_id = user.tenant_id;
    })
    pure recoverable

  -- `markRecoverableDisconnect`
  unfoldable pub disconnect_body : ℕ → AuthUser → ℕ → String → Tx (ChargingDb D) (ChargingSession D)
  unfolding read_session disconnect_running
  disconnect_body id user correlation reason = do
    current ← read_session id
    if current.status == SessionStatus.charging || current.status == SessionStatus.stopping
        then disconnect_running current user correlation reason
        else pure current

  unfoldable pub fail_running :
      ChargingSession D → AuthUser → ℕ → String → Bool → ℕ → Tx (ChargingDb D) (ChargingSession D)
  unfolding set_connector_status transition slice_units
  fail_running current user correlation reason disconnected now = do
    set_connector_status current.connector_id (lost_connector disconnected)
    transition current SessionStatus.failed user correlation (record no_change {
      current_power_kw = some (whole 0);
      failure_reason = some (some (slice_units 500 reason));
      stopped_at = some (stop_time current.started_at now);
    })

  -- The transaction of `failSession`.
  unfoldable pub fail_body :
      ℕ → AuthUser → ℕ → String → Bool → ℕ → Tx (ChargingDb D) (ChargingSession D)
  unfolding read_session is_terminal_charging_session_state fail_running
  fail_body id user correlation reason disconnected now = do
    current ← read_session id
    if is_terminal_charging_session_state current.status
        then pure current
        else fail_running current user correlation reason disconnected now
