-- ===== src/Sessions/Tests.antt =====
-- A charge from its creation to its completion, and each theorem of the charging service on the way.
mod Numbers
mod Infinite
use ev_charge_platform.Sessions.Statements.{stored_change, update_session}
use ev_charge_platform.Charging.{assert_charging_session_transition}
use ev_charge_platform.Prelude.{
  ◌-ℤ◌, ℕ, zero, suc, ◌*◌, ◌≤◌, ℤ, pos, negsuc, ◌+ℤ◌, ◌*ℤ◌, ◌≤ℤ◌, quotient, pos_part, leb_ℤ, ◌≡◌,
  refl, String, Bool, true, false, Option, none, some, List, [], ◌∷◌, find, Failure, Result, ok,
  err, Tx, arith, conflict, if◌then◌else◌, ℕ_eq,
}
use ev_charge_platform.Money.{show_integer, Money}
use ev_charge_platform.Database.{AuthUser, SessionStatus, ConnectorStatus}
use ev_charge_platform.Sessions.Tariffs.{
  round_money, Doubles, TariffSnapshot, whole, calculate_charging_price, estimate_battery_percent,
}
use ev_charge_platform.Sessions.Rows.{
  Station, Connector, Vehicle, Tariff, UserTotals, ChargingSession, ChargingDb, session_id_of,
}
use ev_charge_platform.Sessions.Creation.{CreateChargingSession, new_session, create_body}
use ev_charge_platform.Sessions.Progress.{
  completion, StartChargeResult, authorize_body, prepare_start, activate, prepare_stop,
  complete_body,
}
use ev_charge_platform.Sessions.Prices.{
  ◌≲◌, IsLawful, calculate_charging_price-floor, estimate_battery_percent-IsPercent,
}
use ev_charge_platform.Sessions.Steps
use ev_charge_platform.Sessions.Steps.{Step, Reaches, unmoved, further}
use ev_charge_platform.Sessions.Consistency.{IsConsistent}
use ev_charge_platform.Sessions.Safety.{IsLater, Reaches-IsConsistent, Reaches-Follows}
use ev_charge_platform.Money.Decimal.{from_decimal}
use ev_charge_platform.Sessions.Rows.{connector_id_of}
use ev_charge_platform.Sessions.Statements.{falls, with_connector_status}
use ev_charge_platform.Sessions.Metering.{ChargerEvent}
use ev_charge_platform.Sessions.Platform.{System, PaymentPolicy, ChargerGateway, World}
use ev_charge_platform.Sessions.Service.{create, start, stop}
use ev_charge_platform.Sessions.Events.{handle_charger_event}
use ev_charge_platform.Sessions.Completion.{complete_body-completes}
use ev_charge_platform.Sessions.Demands.{CanComplete}
use ev_charge_platform.Sessions.Aftermath.{stop-cancels}
use ev_charge_platform.Sessions.Progress.{Prepared}
use ev_charge_platform.Sessions.Tests.Infinite.{
  Extended, number, infinity, nan, extended_numbers, extended_numbers-IsLawful,
}
use ev_charge_platform.Sessions.Tests.Numbers.{whole_numbers, whole_numbers-IsLawful, in_order}

abbrev tariff : TariffSnapshot ℤ
tariff = record {
  activation_fee = pos 2;
  currency = "BRL";
  initial_battery_percent = pos 30;
  name = none;
  parking_fee_hour = pos 6;
  price_per_kwh = pos 3;
}

price_text : (calculate_charging_price (pos 10) (pos 3600) tariff).total_amount ≡ pos 38
unfolding calculate_charging_price round_money quotient ◌*ℤ◌ ◌+ℤ◌
price_text = refl

abbrev driver : AuthUser
driver = record { sub = 4; tenant_id = 9; is_system = false }

abbrev plug : Connector ℤ
plug = record {
  id = 21;
  evse_id = 22;
  evse_deleted = false;
  charge_point_id = 23;
  charge_point_deleted = false;
  station_id = 24;
  maximum_power_kw = pos 50;
  status = ConnectorStatus.available;
  deleted = false;
  version = 1;
}

abbrev car : Vehicle ℤ
car = record { id = 31; user_id = 4; battery_capacity_kwh = pos 60; deleted = false }

abbrev night_tariff : Tariff ℤ
night_tariff = record {
  id = 41;
  station_id = 24;
  name = "noite";
  currency = "BRL";
  activation_fee = pos 2;
  parking_fee_hour = pos 6;
  price_per_kwh = pos 3;
  valid_from = 1000;
  valid_until = none;
  deleted = false;
}

abbrev owner : UserTotals ℤ
owner = record { id = 4; avoided_co2_kg = pos 0; total_energy_kwh = pos 0; version = 1 }

abbrev plugged : Connector ℤ
plugged = record plug { status = ConnectorStatus.occupied; version = 3 }

abbrev idle : ChargingDb ℤ
idle = record {
  next_id = 100;
  stations = record { id = 24; tenant_id = 9; deleted = false } ∷ [];
  connectors = plug ∷ [];
  vehicles = car ∷ [];
  tariffs = night_tariff ∷ [];
  users = owner ∷ [];
  sessions = [];
  meter_values = [];
  audit_log = [];
  outbox = [];
}

abbrev left_by {ℓ} : {A : Type ℓ} → ChargingDb ℤ → Result (A × ChargingDb ℤ) → ChargingDb ℤ
left_by db (ok (a, db')) = db'
left_by db (err x) = db

abbrev request : CreateChargingSession
request = record { connector_id = 21; vehicle_id = 31 }

abbrev created : ChargingDb ℤ
created = left_by idle (create_body request driver "first" 7 5000 idle)

abbrev authorized : ChargingDb ℤ
authorized = left_by created (authorize_body 100 driver 7 created)

abbrev starting : ChargingDb ℤ
starting = left_by authorized (prepare_start 100 driver 7 authorized)

abbrev accepted : StartChargeResult ℤ
accepted = record { meter_start_wh = pos 7_000; power_kw = pos 11 }

abbrev charging : ChargingDb ℤ
charging = left_by starting (activate 100 driver 7 accepted 6000 starting)

abbrev stopping : ChargingDb ℤ
stopping = left_by charging (prepare_stop 100 driver 7 charging)

abbrev completed : ChargingDb ℤ
completed = left_by stopping (complete_body 100 driver 7 (pos 17_000) 3606000 stopping)

-- What the first session of the tables shows.
abbrev shown : List (ChargingSession ℤ) → Option (SessionStatus × Option ℤ × ℤ)
shown [] = none
shown (s ∷ _) = some (s.status, s.meter_stop_wh, s.total_amount)

whole_charge : shown completed.sessions ≡ some (SessionStatus.completed, some (pos 17_000), pos 38)
unfolding complete_body prepare_stop activate prepare_start authorize_body create_body
    assert_charging_session_transition update_session stored_change completion quotient ◌-ℤ◌
    calculate_charging_price round_money ◌*ℤ◌ ◌+ℤ◌
whole_charge = refl

abbrev first_session : ChargingSession ℤ
first_session = new_session plug car night_tariff driver "first" 5000 100

abbrev head_or : ChargingSession ℤ → List (ChargingSession ℤ) → ChargingSession ℤ
head_or d [] = d
head_or d (s ∷ _) = s

abbrev row_of : ChargingDb ℤ → ChargingSession ℤ
row_of db = head_or first_session db.sessions

idle-IsConsistent : IsConsistent idle
idle-IsConsistent = record {
  held = λ id s h. cc h;
  alone = λ a b s t h. cc h;
  unused = λ id h. refl;
}

created_step : Step idle created
unfolding create_body
created_step = Step.created {s = first_session} request driver "first" 7 5000 refl

created-IsConsistent : IsConsistent created
created-IsConsistent =
    Reaches-IsConsistent (further created_step (unmoved created)) idle-IsConsistent

authorized_step : Step created authorized
unfolding complete_body prepare_stop activate prepare_start authorize_body create_body
    assert_charging_session_transition update_session stored_change completion quotient ◌-ℤ◌
    calculate_charging_price round_money ◌*ℤ◌ ◌+ℤ◌
authorized_step =
    Step.authorized {db = created} {db' = authorized} {s = row_of authorized} 100 driver 7 refl

starting_step : Step authorized starting
unfolding complete_body prepare_stop activate prepare_start authorize_body create_body
    assert_charging_session_transition update_session stored_change completion quotient ◌-ℤ◌
    calculate_charging_price round_money ◌*ℤ◌ ◌+ℤ◌
starting_step =
    Step.prepared_start {db = authorized} {db' = starting}
      {p = record { invoke_gateway = true; session = row_of starting }} 100 driver 7 refl

charging_step : Step starting charging
unfolding complete_body prepare_stop activate prepare_start authorize_body create_body
    assert_charging_session_transition update_session stored_change completion quotient ◌-ℤ◌
    calculate_charging_price round_money ◌*ℤ◌ ◌+ℤ◌
charging_step =
    Step.activated {db = starting} {db' = charging} {s = row_of charging} 100 driver 7 accepted 6000
      refl

charging_run : Reaches created charging
charging_run =
    further authorized_step (further starting_step (further charging_step (unmoved charging)))

Reaches-IsConsistent_example : IsConsistent charging
Reaches-IsConsistent_example = Reaches-IsConsistent charging_run created-IsConsistent

Reaches-Follows_example :
    (t : ChargingSession ℤ) × (find session_id_of 100 charging.sessions ≡ some t)
    × IsLater first_session t
unfolding complete_body prepare_stop activate prepare_start authorize_body create_body
    assert_charging_session_transition update_session stored_change completion quotient ◌-ℤ◌
    calculate_charging_price round_money ◌*ℤ◌ ◌+ℤ◌
Reaches-Follows_example = Reaches-Follows charging_run created-IsConsistent 100 first_session refl

abbrev fees : TariffSnapshot Extended
fees = record {
  activation_fee = number (pos 2);
  currency = "BRL";
  initial_battery_percent = number (pos 30);
  name = none;
  parking_fee_hour = number (pos 6);
  price_per_kwh = number (pos 3);
}

calculate_charging_price-floor_example :
    let price = calculate_charging_price (number (negsuc 4)) (number (pos 3600)) fees in
    (number (pos 0) ≲ price.activation_fee)
    × (number (pos 0) ≲ price.energy_amount)
    × (number (pos 0) ≲ price.parking_fee)
    × (number (pos 0) ≲ price.total_amount)
calculate_charging_price-floor_example =
    calculate_charging_price-floor extended_numbers-IsLawful (number (negsuc 4)) (number (pos 3600))
      fees refl refl refl refl refl refl refl

-- An energy without end at no price is no number.
no_price :
    (calculate_charging_price infinity
      (number (pos 0))
      (record fees { price_per_kwh = number (pos 0) })).energy_amount
    ≡ nan
unfolding calculate_charging_price round_money
no_price = refl

estimate_battery_percent-IsPercent_example :
    (number (pos 0) ≲ estimate_battery_percent (number (pos 30)) infinity (number (pos 60)))
    × (estimate_battery_percent (number (pos 30)) infinity (number (pos 60)) ≲ number (pos 100))
estimate_battery_percent-IsPercent_example =
    estimate_battery_percent-IsPercent extended_numbers-IsLawful (number (pos 30)) infinity
      (number (pos 60)) refl refl

-- A charger whose meter reads less than at the start.
completable : CanComplete (row_of stopping) owner (pos 5_000) 3606000
unfolding complete_body prepare_stop activate prepare_start authorize_body create_body
    assert_charging_session_transition update_session stored_change completion quotient ◌-ℤ◌
    calculate_charging_price round_money ◌*ℤ◌ ◌+ℤ◌
completable = record {
  activation_floor = refl;
  parking_floor = refl;
  price_floor = refl;
  duration_finite = refl;
  in_order = refl;
  no_power = pos 0;
  no_power_fits = refl;
  energy = pos 0;
  energy_fits = refl;
  price = pos 8;
  price_fits = refl;
  co2 = pos 0;
  total = pos 0;
  co2_fits = refl;
  total_fits = refl;
}

complete_body-completes_example :
    (t : ChargingSession ℤ) × (db' : ChargingDb ℤ) × (complete_body 100 driver 7
        (pos 5_000)
        3606000
        stopping
      ≡ ok (t, db'))
    × (t.status ≡ SessionStatus.completed)
    × (falls t.meter_start_wh t.meter_stop_wh ≡ false)
    × (t.energy_kwh ≡ completable.energy)
    × (t.total_amount ≡ completable.price)
    × (find connector_id_of 21 db'.connectors
        ≡ some (with_connector_status ConnectorStatus.available plugged))
unfolding complete_body prepare_stop activate prepare_start authorize_body create_body
    assert_charging_session_transition update_session stored_change completion quotient ◌-ℤ◌
    calculate_charging_price round_money ◌*ℤ◌ ◌+ℤ◌
complete_body-completes_example =
    complete_body-completes whole_numbers-IsLawful (row_of stopping) owner (pos 5_000) 3606000
      completable driver 7 stopping plugged refl refl refl refl

-- A policy that counts its cancellations and refuses to settle.
abbrev counting : PaymentPolicy ℕ
counting = record {
  authorize = λ context user key correlation n. (ok tt, n);
  settle = λ context money user correlation n. (err conflict, n);
  cancel = λ id user correlation n. (ok tt, suc n);
}

abbrev quiet_world : World ℤ ℕ
quiet_world = record {
  others = λ n s. s;
  clock = λ n. 3606000;
  maximum_money_minor = pos 1_000_000;
  message = λ x. "erro";
}

abbrev charger : ChargerGateway ℤ
charger = record {
  register_connector = λ s. ok tt;
  start = λ s. ok accepted;
  stop = λ id. ok (pos 17_000);
}

abbrev running : System ℤ ℕ
running = record { charging = charging; payments = 0 }

abbrev one_cancelled : ℕ
one_cancelled = 1

stop-cancels_example :
    ((stop counting charger quiet_world 100 driver 7 running).1.charging ≡ completed)
    × ((stop counting charger quiet_world 100 driver 7 running).1.payments ≡ one_cancelled)
unfolding complete_body prepare_stop activate prepare_start authorize_body create_body
    assert_charging_session_transition update_session stored_change completion quotient ◌-ℤ◌
    calculate_charging_price round_money ◌*ℤ◌ ◌+ℤ◌ from_decimal show_integer
stop-cancels_example =
    stop-cancels counting quiet_world (λ n s. refl) charger 100 driver 7 running
      {p = record { invoke_gateway = true; session = row_of stopping }} {t = row_of completed}
      {d = stopping} {d' = completed}
      {money = record {
        amount_minor = pos 3800;
        currency = "BRL";
        maximum_amount_minor = pos 1_000_000;
      }}
      {x = conflict} {q = 0} refl refl refl refl refl refl
