-- ===== src/Intents/Tests.antt =====
-- Each theorem on payment intents at an input that meets its hypotheses.
use ev_charge_platform.Prelude.{
  ℕ, nat_eq, if◌then◌else◌, negsuc, constraint_violation, ℕ_eq, ◌≡◌, ◌≢◌, ◌⊎◌, refl, pos, false,
  none, some, [], ◌∷◌, ok, err, find, optimistic_lock_conflict,
}
use ev_charge_platform.Money.{matches_currency}
use ev_charge_platform.Database.{AuthUser, IntentStatus, IntentType}
use ev_charge_platform.Intents.{assert_payment_intent_transition, is_terminal_payment_intent_status}
use ev_charge_platform.Intents.Paths.{stay, then_to, terminal-stays, open-leaves}
use ev_charge_platform.Intents.Service.{
  PaymentIntent, IntentDb, IntentChange, intent_id_of, find_intent, transition, moved_to_status,
  write_status, update_intent, breaks_intent_check, record_change, lost_race,
}
use ev_charge_platform.Intents.Locking.{RowsFollow, transition-RowsFollow}
use ev_charge_platform.Intents.Arrival.{transition-arrives, transition-succeeds}

terminal-stays_example : IntentStatus.refunded ≡ IntentStatus.refunded
unfolding assert_payment_intent_transition is_terminal_payment_intent_status
terminal-stays_example = terminal-stays refl (
    then_to IntentStatus.refunded IntentStatus.refunded IntentStatus.refunded refl
      (stay IntentStatus.refunded))

open-leaves_example :
    (t : IntentStatus) × (t ≢ IntentStatus.captured)
    × (assert_payment_intent_transition IntentStatus.captured t ≡ ok tt)
unfolding is_terminal_payment_intent_status
open-leaves_example = open-leaves IntentStatus.captured refl

abbrev payer : AuthUser
payer = record { sub = 4; tenant_id = 9; is_system = false }

abbrev top_up : PaymentIntent
top_up = record {
  id = 1;
  key = record { tenant_id = 9; idempotency_key = "top-up" };
  user_id = 4;
  request_hash = 0;
  status = IntentStatus.pending;
  intent_type = IntentType.wallet_top_up;
  provider = "mock";
  provider_reference = none;
  charging_session_id = none;
  currency = "BRL";
  amount_minor = pos 5000;
  authorized_amount_minor = pos 0;
  captured_amount_minor = pos 0;
  refunded_amount_minor = pos 0;
  deleted = false;
  version = 1;
}

abbrev desk : IntentDb
desk = record { intents = top_up ∷ []; audit_log = []; outbox = []; next_id = 2 }

abbrev capture_all : IntentChange
capture_all = record {
  authorized_amount_minor = none;
  captured_amount_minor = some (pos 5000);
  provider_reference = none;
  refunded_amount_minor = none;
}

-- Another call cancels the payment between the read and the write.
abbrev cancelled : ℕ → IntentDb → IntentDb
cancelled n db =
    if nat_eq n 0
    then record db { intents = record top_up { status = IntentStatus.cancelled; version = 2 } ∷ [] }
    else db

transition-RowsFollow_example :
    ((transition cancelled 1 IntentStatus.captured payer capture_all desk).1 ≡ desk)
    ⊎ ((read : PaymentIntent) × (find_intent 1 payer desk.intents ≡ some read)
        × (written : IntentDb) × RowsFollow read (cancelled 0 desk).intents written.intents
        × (((transition cancelled 1 IntentStatus.captured payer capture_all desk).1.intents
              ≡ written.intents)
            ⊎ ((transition cancelled 1 IntentStatus.captured payer capture_all desk).1.intents
                ≡ (cancelled 1 written).intents)))
transition-RowsFollow_example =
    transition-RowsFollow cancelled 1 IntentStatus.captured payer capture_all desk

lost_to_another :
    (transition cancelled 1 IntentStatus.captured payer capture_all desk).0
    ≡ err optimistic_lock_conflict
unfolding transition find_intent assert_payment_intent_transition write_status update_intent
    lost_race
lost_to_another = refl

abbrev captured : PaymentIntent
captured = record top_up {
  status = IntentStatus.captured;
  captured_amount_minor = pos 5000;
  version = 2;
}

abbrev undisturbed : ℕ → IntentDb → IntentDb
undisturbed n db = db

abbrev captured_desk : IntentDb
captured_desk = (transition undisturbed 1 IntentStatus.captured payer capture_all desk).1

capture_returns :
    transition undisturbed 1 IntentStatus.captured payer capture_all desk
    ≡ (ok captured, captured_desk)
unfolding transition find_intent assert_payment_intent_transition write_status update_intent
    breaks_intent_check matches_currency record_change moved_to_status
capture_returns = refl

-- A captured amount below 0 is refused by the table.
negative_amount :
    transition undisturbed 1 IntentStatus.captured payer
      (record capture_all { captured_amount_minor = some (negsuc 4) })
      desk
    ≡ (err constraint_violation, desk)
unfolding transition find_intent assert_payment_intent_transition write_status update_intent
    breaks_intent_check matches_currency record_change moved_to_status
negative_amount = refl

transition-arrives_example : captured.status ≡ IntentStatus.captured
transition-arrives_example =
    transition-arrives undisturbed 1 IntentStatus.captured payer capture_all desk (λ d. refl)
      capture_returns

found_top_up : find_intent 1 payer desk.intents ≡ some top_up
unfolding find_intent
found_top_up = refl

may_capture : assert_payment_intent_transition IntentStatus.pending IntentStatus.captured ≡ ok tt
unfolding assert_payment_intent_transition
may_capture = refl

passes : breaks_intent_check (moved_to_status IntentStatus.captured capture_all top_up) ≡ false
unfolding breaks_intent_check matches_currency moved_to_status
passes = refl

transition-succeeds_example :
    (i : PaymentIntent) × (db' : IntentDb) × (transition
        (λ n d. d)
        1
        IntentStatus.captured
        payer
        capture_all
        desk
      ≡ (ok i, db'))
    × (i.status ≡ IntentStatus.captured)
    × (find intent_id_of 1 db'.intents ≡ some i)
transition-succeeds_example =
    transition-succeeds 1 IntentStatus.captured payer capture_all desk top_up found_top_up
      may_capture passes
