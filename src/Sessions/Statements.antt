-- ===== src/Sessions/Statements.antt =====
-- The statements of a charging transaction, and `transition` of charging.service.ts.
use ev_charge_platform.Prelude.{
  ℕ, ◌+◌, ℤ, ltb, ltb_ℤ, nat_eq, ℕ_eq, String, Bool, false, not, ◌&&◌, ◌||◌, Option, none, some,
  ◌∷◌, find, update, ◌==◌, Result, ok, err, Tx, pure, lift, ◌>>=◌, ◌>>◌, or_throw, bind_result,
  not_found, constraint_violation, optimistic_lock_conflict, if◌then◌else◌,
}
use ev_charge_platform.Database.{
  AuthUser, SessionStatus, SessionStatus_eq, ConnectorStatus, AuditEntry, DomainEvent,
}
use ev_charge_platform.Charging.{assert_charging_session_transition}
use ev_charge_platform.Sessions.Tariffs.{Doubles, whole}
use ev_charge_platform.Sessions.Rows.{
  Connector, ChargingSession, ChargingDb, connector_id_of, session_id_of,
}

-- The columns that `transition` may set besides the status; `some none` sets a column to null.
pub record SessionChange (D : Type 0) : Type 0 where
  pub completed_at : Option ℕ
  pub current_power_kw : Option D
  pub energy_kwh : Option D
  pub estimated_cost : Option D
  pub failure_reason : Option (Option String)
  pub meter_start_wh : Option ℤ
  pub meter_stop_wh : Option ℤ
  pub started_at : Option ℕ
  pub stopped_at : Option (Option ℕ)
  pub total_amount : Option D

abbrev pub no_change : {D : Type 0} → SessionChange D
no_change = record {
  completed_at = none;
  current_power_kw = none;
  energy_kwh = none;
  estimated_cost = none;
  failure_reason = none;
  meter_start_wh = none;
  meter_stop_wh = none;
  started_at = none;
  stopped_at = none;
  total_amount = none;
}

abbrev over {ℓ} : {A : Type ℓ} → Option A → A → A
over none old = old
over (some new) old = new

abbrev set_over {ℓ} : {A : Type ℓ} → Option A → Option A → Option A
set_over none old = old
set_over (some new) old = some new

-- `earlier > later` of two columns that are both there.
abbrev pub later_first : Option ℕ → Option ℕ → Bool
later_first (some earlier) (some later) = ltb later earlier
later_first _ _ = false

abbrev pub falls : Option ℤ → Option ℤ → Bool
falls (some start) (some stop) = ltb_ℤ stop start
falls _ _ = false

abbrev pub actor : AuthUser → Option ℕ
actor user = if user.is_system then none else some user.sub

abbrev pub state_audit : ℕ → AuthUser → ℕ → AuditEntry
state_audit id user correlation = record {
  action = "CHARGING_SESSION_STATE_CHANGED";
  entity_type = "ChargingSession";
  entity_id = id;
  tenant_id = user.tenant_id;
  user_id = actor user;
  correlation_id = some correlation;
}

abbrev pub state_event : ℕ → AuthUser → DomainEvent
state_event id user = record {
  aggregate_type = "ChargingSession";
  aggregate_id = id;
  event_type = "ChargingSessionStateChanged";
  tenant_id = user.tenant_id;
}

module _ {D : Type 0} where
  unfoldable pub write_audit : AuditEntry → Tx (ChargingDb D) (Unit {0})
  write_audit e db = ok (tt, record db { audit_log = e ∷ db.audit_log })

  unfoldable pub publish : DomainEvent → Tx (ChargingDb D) (Unit {0})
  publish e db = ok (tt, record db { outbox = e ∷ db.outbox })

  abbrev pub with_connector_status : ConnectorStatus → Connector D → Connector D
  with_connector_status status c = record c { status = status; version = c.version + 1 }

  -- `connector.update` with the version one higher.
  unfoldable pub set_connector_status : ℕ → ConnectorStatus → Tx (ChargingDb D) (Unit {0})
  set_connector_status id status db = elim (find connector_id_of id db.connectors) [
    | none ↦ err not_found
    | some _ ↦ ok (
      tt,
      record db {
        connectors = update connector_id_of id (with_connector_status status) db.connectors;
      },
    )
  ]

  -- The `where` of `updateMany`.
  abbrev pub unchanged_since : ChargingSession D → ChargingSession D → Bool
  unchanged_since current row = row.status == current.status && nat_eq row.version current.version

abbrev pub held : {D : Type 0} → Option D → Result D
held none = err constraint_violation
held (some stored) = ok stored

module _ {D : Type 0} ⦃f : Doubles D⦄ where
  -- A number on its way into a `Decimal(precision, scale)` column.
  abbrev pub column : ℕ → ℕ → D → Result D
  column precision scale value = held (f.to_column precision scale value)

  abbrev pub optional_column : ℕ → ℕ → Option D → Result (Option D)
  optional_column precision scale none = ok none
  optional_column precision scale (some value) =
      bind_result (column precision scale value) λ stored. ok (some stored)

  -- The table's checks.
  unfoldable pub breaks_session_check : ChargingSession D → Bool
  breaks_session_check s =
      not (f.at_most (whole 0) s.energy_kwh)
      || not (f.at_most (whole 0) s.total_amount)
      || falls s.meter_start_wh s.meter_stop_wh
      || later_first s.started_at s.stopped_at
      || later_first s.stopped_at s.completed_at

  unfoldable pub stored_change : SessionChange D → Result (SessionChange D)
  stored_change columns = bind_result (optional_column 8 2 columns.current_power_kw) λ power.
      bind_result (optional_column 12 3 columns.energy_kwh) λ energy.
        bind_result (optional_column 12 2 columns.estimated_cost) λ cost.
          bind_result (optional_column 12 2 columns.total_amount) λ total. ok (record columns {
            current_power_kw = power;
            energy_kwh = energy;
            estimated_cost = cost;
            total_amount = total;
          })

  -- `{ ...data, status: target, version: { increment: 1 } }`
  unfoldable pub changed_session :
      SessionStatus → SessionChange D → ChargingSession D → ChargingSession D
  changed_session target columns s = record s {
    status = target;
    meter_start_wh = set_over columns.meter_start_wh s.meter_start_wh;
    meter_stop_wh = set_over columns.meter_stop_wh s.meter_stop_wh;
    started_at = set_over columns.started_at s.started_at;
    stopped_at = over columns.stopped_at s.stopped_at;
    completed_at = set_over columns.completed_at s.completed_at;
    failure_reason = over columns.failure_reason s.failure_reason;
    energy_kwh = over columns.energy_kwh s.energy_kwh;
    current_power_kw = over columns.current_power_kw s.current_power_kw;
    estimated_cost = over columns.estimated_cost s.estimated_cost;
    total_amount = over columns.total_amount s.total_amount;
    version = s.version + 1;
  }

  -- `updateMany` on the row as it was read and `findUniqueOrThrow` after it: the new row, or none
  -- where the row has another status or another version by now.
  unfoldable pub update_session :
      ChargingSession D
      → SessionStatus
      → SessionChange D
      → Tx (ChargingDb D) (Option (ChargingSession D))
  unfolding breaks_session_check changed_session
  update_session current target columns db = elim (find session_id_of current.id db.sessions) [
    | none ↦ ok (none, db)
    | some row ↦
        if not (unchanged_since current row) then ok (none, db) else elim (stored_change columns) [
          | err x ↦ err x
          | ok stored ↦
              if breaks_session_check (changed_session target stored row)
              then err constraint_violation
              else ok (
                some (changed_session target stored row),
                record db {
                  sessions =
                      update session_id_of current.id (changed_session target stored) db.sessions;
                },
              )
        ]
  ]

  unfoldable pub move_session :
      ChargingSession D
      → SessionStatus
      → AuthUser
      → ℕ
      → SessionChange D
      → Tx (ChargingDb D) (ChargingSession D)
  unfolding write_audit publish
  move_session current target user correlation columns = do
    found ← update_session current target columns
    updated ← or_throw found optimistic_lock_conflict
    write_audit (state_audit current.id user correlation)
    publish (state_event current.id user)
    pure updated

  unfoldable pub transition :
      ChargingSession D
      → SessionStatus
      → AuthUser
      → ℕ
      → SessionChange D
      → Tx (ChargingDb D) (ChargingSession D)
  unfolding move_session
  transition current target user correlation columns = do
    lift (assert_charging_session_transition current.status target)
    if current.status == target
        then pure current
        else move_session current target user correlation columns
