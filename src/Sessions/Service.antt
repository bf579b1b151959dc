-- ===== src/Sessions/Service.antt =====
-- charging.service.ts: the methods, each a sequence of transactions with calls of the charger and
-- of the payment policy between them. A method returns the row that the source presents.
use ev_charge_platform.Prelude.{
  ℕ, ℤ, String, Bool, false, some, ℕ_eq, Failure, Action, if◌then◌else◌,
}
use ev_charge_platform.Prelude.Methods.{returns, throws, calls, meanwhile, try_catch, ◌>>=◌, ◌>>◌}
use ev_charge_platform.Money.Decimal.{from_decimal}
use ev_charge_platform.Database.{AuthUser, SessionStatus_eq}
use ev_charge_platform.Sessions.Tariffs.{Doubles}
use ev_charge_platform.Sessions.Rows.{ChargingSession}
use ev_charge_platform.Sessions.Presenter.{read_tariff_snapshot}
use ev_charge_platform.Sessions.Creation.{CreateChargingSession, create_body}
use ev_charge_platform.Sessions.Progress.{
  authorize_body, prepare_start, activate, prepare_stop, complete_body,
}
use ev_charge_platform.Sessions.Platform.{
  System, PaymentPolicy, ChargerGateway, World, creation_failure, in_transaction, paying,
}
use ev_charge_platform.Sessions.Endings.{fail_body}

module _ {D P : Type 0} ⦃f : Doubles D⦄ (policy : PaymentPolicy P) where
  unfoldable pub fail_session :
      World D P → ℕ → AuthUser → ℕ → String → Bool → Action (System D P) (ChargingSession D)
  fail_session world id user correlation reason disconnected = do
    failed ← in_transaction (fail_body id user correlation reason disconnected (world.clock 9))
    meanwhile (world.others 9)
    paying (policy.cancel id user correlation)
    returns failed

  -- `catch (error) { await this.failSession(...); throw error; }`
  unfoldable pub fail_and_rethrow :
      World D P → ℕ → AuthUser → ℕ → Failure → Action (System D P) (ChargingSession D)
  fail_and_rethrow world id user correlation error = do
    meanwhile (world.others 8)
    _ ← fail_session world id user correlation (world.message error) false
    throws error

  unfoldable pub complete_session :
      World D P → ℕ → AuthUser → ℕ → ℤ → Action (System D P) (ChargingSession D)
  complete_session world id user correlation meter_stop = do
    completed ← in_transaction (complete_body id user correlation meter_stop (world.clock 2))
    let currency = (read_tariff_snapshot completed.tariff_snapshot).currency
    money ← calls (
        from_decimal (f.decimal_text completed.total_amount) currency (record {
          allow_negative = false;
          maximum_amount_minor = some world.maximum_money_minor;
        }))
    meanwhile (world.others 2)
    paying (
        policy.settle (record { charging_session_id = completed.id; currency = currency }) money
          user correlation)
    returns completed

  abbrev pub authorize_created :
      World D P
      → AuthUser
      → String
      → ℕ
      → ChargingSession D
      → Action (System D P) (ChargingSession D)
  authorize_created world user key correlation session = do
    meanwhile (world.others 0)
    paying (
        policy.authorize
          (record {
            charging_session_id = session.id;
            currency = (read_tariff_snapshot session.tariff_snapshot).currency;
          })
          user key correlation)
    meanwhile (world.others 1)
    in_transaction (authorize_body session.id user correlation)

  -- `create`, without the table of idempotency keys around it.
  unfoldable pub create :
      World D P
      → CreateChargingSession
      → AuthUser
      → String
      → ℕ
      → Action (System D P) (ChargingSession D)
  create world input user key correlation =
      try_catch
        (do
          session ← in_transaction (create_body input user key correlation (world.clock 0))
          try_catch (authorize_created world user key correlation session)
              (fail_and_rethrow world session.id user correlation))
        λ error. throws (creation_failure error)

module _ {D P : Type 0} ⦃f : Doubles D⦄ (policy : PaymentPolicy P)
    (gateway : ChargerGateway D) where
  abbrev pub start_charger :
      World D P → ChargingSession D → AuthUser → ℕ → Action (System D P) (ChargingSession D)
  start_charger world session user correlation = do
    calls (gateway.register_connector session)
    accepted ← calls (gateway.start session)
    meanwhile (world.others 0)
    in_transaction (activate session.id user correlation accepted (world.clock 0))

  unfoldable pub start : World D P → ℕ → AuthUser → ℕ → Action (System D P) (ChargingSession D)
  start world id user correlation = do
    prepared ← in_transaction (prepare_start id user correlation)
    if prepared.invoke_gateway
        then try_catch (start_charger world prepared.session user correlation)
            (fail_and_rethrow policy world prepared.session.id user correlation)
        else returns prepared.session

  abbrev pub stop_charger :
      World D P → ChargingSession D → AuthUser → ℕ → Action (System D P) (ChargingSession D)
  stop_charger world session user correlation = do
    meter_stop ← calls (gateway.stop session.id)
    meanwhile (world.others 1)
    complete_session policy world session.id user correlation meter_stop

  unfoldable pub stop : World D P → ℕ → AuthUser → ℕ → Action (System D P) (ChargingSession D)
  stop world id user correlation = do
    prepared ← in_transaction (prepare_stop id user correlation)
    if prepared.invoke_gateway
        then try_catch (stop_charger world prepared.session user correlation)
            (fail_and_rethrow policy world prepared.session.id user correlation)
        else returns prepared.session
