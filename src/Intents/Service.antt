-- ===== src/Intents/Service.antt =====
-- payment-intent.service.ts: `create` and `transition` over the table of intents. A time stamp and
-- the metadata are left out of a row; `hash` stands for `financialRequestHash`.
use Prim.Native.String.{◌++◌}
use ev_charge_platform.Prelude.{
  ℕ, suc, ◌+◌, ℤ, pos, ltb_ℤ, nat_eq, ℕ_eq, String, ◌==◌, Bool, true, false, not, ◌&&◌, ◌||◌,
  Option, none, some, List, ◌∷◌, find, update, Action, Result, ok, err, not_found, unique_violation,
  constraint_violation, idempotency_payload_conflict, optimistic_lock_conflict, if◌then◌else◌,
}
use ev_charge_platform.Money.{Money, matches_currency}
use ev_charge_platform.Database.{
  AuthUser, IntentStatus, IntentStatus_eq, IntentType, TransactionKey, TransactionKey_eq,
  AuditEntry, DomainEvent,
}
use ev_charge_platform.Intents.Machine.{assert_payment_intent_transition}

pub record PaymentIntent : Type 0 where
  pub id : ℕ
  pub key : TransactionKey
  pub user_id : ℕ
  pub request_hash : ℕ
  pub status : IntentStatus
  pub intent_type : IntentType
  pub provider : String
  pub provider_reference : Option ℕ
  pub charging_session_id : Option ℕ
  pub currency : String
  pub amount_minor : ℤ
  pub authorized_amount_minor : ℤ
  pub captured_amount_minor : ℤ
  pub refunded_amount_minor : ℤ
  pub deleted : Bool
  pub version : ℕ

-- The tables that the service writes.
pub record IntentDb : Type 0 where
  pub intents : List PaymentIntent
  pub audit_log : List AuditEntry
  pub outbox : List DomainEvent
  pub next_id : ℕ

pub record CreatePaymentIntent : Type 0 where
  pub charging_session_id : Option ℕ
  pub idempotency_key : String
  pub money : Money
  pub provider : String
  pub provider_reference : Option ℕ
  pub intent_type : IntentType

-- What `financialRequestHash` is taken of.
pub record HashedIntent : Type 0 where
  pub amount_minor : ℤ
  pub charging_session_id : Option ℕ
  pub currency : String
  pub provider : String
  pub intent_type : IntentType

-- The columns that `transition` may set besides the status.
pub record IntentChange : Type 0 where
  pub authorized_amount_minor : Option ℤ
  pub captured_amount_minor : Option ℤ
  pub provider_reference : Option ℕ
  pub refunded_amount_minor : Option ℤ

abbrev pub intent_id_of : PaymentIntent → ℕ
intent_id_of i = i.id

abbrev pub intent_key_of : PaymentIntent → TransactionKey
intent_key_of i = i.key

abbrev pub hashed_intent : CreatePaymentIntent → HashedIntent
hashed_intent input = record {
  amount_minor = input.money.amount_minor;
  charging_session_id = input.charging_session_id;
  currency = input.money.currency;
  provider = input.provider;
  intent_type = input.intent_type;
}

abbrev pub input_key : CreatePaymentIntent → AuthUser → TransactionKey
input_key input user = record {
  tenant_id = user.tenant_id;
  idempotency_key = input.idempotency_key;
}

abbrev pub new_intent : CreatePaymentIntent → AuthUser → ℕ → ℕ → PaymentIntent
new_intent input user hashed id = record {
  id = id;
  key = input_key input user;
  user_id = user.sub;
  request_hash = hashed;
  status = IntentStatus.created;
  intent_type = input.intent_type;
  provider = input.provider;
  provider_reference = input.provider_reference;
  charging_session_id = input.charging_session_id;
  currency = input.money.currency;
  amount_minor = input.money.amount_minor;
  authorized_amount_minor = pos 0;
  captured_amount_minor = pos 0;
  refunded_amount_minor = pos 0;
  deleted = false;
  version = 1;
}

abbrev kept {ℓ} : {A : Type ℓ} → Option A → A → A
kept none old = old
kept (some new) old = new

abbrev kept_reference : Option ℕ → Option ℕ → Option ℕ
kept_reference none old = old
kept_reference (some new) old = some new

-- `{ ...data, status: target, version: { increment: 1 } }`
unfoldable pub moved_to_status : IntentStatus → IntentChange → PaymentIntent → PaymentIntent
moved_to_status target columns i = record i {
  authorized_amount_minor = kept columns.authorized_amount_minor i.authorized_amount_minor;
  captured_amount_minor = kept columns.captured_amount_minor i.captured_amount_minor;
  provider_reference = kept_reference columns.provider_reference i.provider_reference;
  refunded_amount_minor = kept columns.refunded_amount_minor i.refunded_amount_minor;
  status = target;
  version = i.version + 1;
}

abbrev intent_audit : String → ℕ → AuthUser → AuditEntry
intent_audit action id user = record {
  action = action;
  entity_type = "PaymentIntent";
  entity_id = id;
  tenant_id = user.tenant_id;
  user_id = some user.sub;
  correlation_id = none;
}

abbrev intent_event : String → ℕ → AuthUser → DomainEvent
intent_event type id user = record {
  aggregate_type = "PaymentIntent";
  aggregate_id = id;
  event_type = type;
  tenant_id = user.tenant_id;
}

-- The checks of the table.
unfoldable pub breaks_intent_check : PaymentIntent → Bool
breaks_intent_check i =
    ltb_ℤ i.amount_minor (pos 0)
    || ltb_ℤ i.authorized_amount_minor (pos 0)
    || ltb_ℤ i.captured_amount_minor (pos 0)
    || ltb_ℤ i.refunded_amount_minor (pos 0)
    || ltb_ℤ i.captured_amount_minor i.refunded_amount_minor
    || not (matches_currency i.currency)

abbrev pub is_replay : PaymentIntent → ℕ → AuthUser → Bool
is_replay i hashed user = nat_eq i.request_hash hashed && nat_eq i.user_id user.sub

-- The row of the key after P2002.
unfoldable pub raced_intent : TransactionKey → ℕ → AuthUser → Action IntentDb PaymentIntent
raced_intent key hashed user db = elim (find intent_key_of key db.intents) [
  | none ↦ (err not_found, db)
  | some raced ↦ if is_replay raced hashed user then (ok raced, db) else (err unique_violation, db)
]

-- `paymentIntent.create` and what follows it; `between` is what others do before the row of a lost
-- race is read.
unfoldable pub insert_intent :
    (IntentDb → IntentDb) → PaymentIntent → AuthUser → Action IntentDb PaymentIntent
unfolding breaks_intent_check raced_intent
insert_intent between i user db =
    if breaks_intent_check i
    then (err constraint_violation, db)
    else elim (find intent_key_of i.key db.intents) [
      | some _ ↦ raced_intent i.key i.request_hash user (between db)
      | none ↦ (
        ok i,
        record {
          intents = i ∷ db.intents;
          audit_log = intent_audit "PAYMENT_INTENT_CREATED" i.id user ∷ db.audit_log;
          outbox = intent_event "PaymentIntentCreated" i.id user ∷ db.outbox;
          next_id = suc db.next_id;
        },
      )
    ]

-- `create`. `between` is what others do to the tables between its statements.
module _ (hash : HashedIntent → ℕ) (between : ℕ → IntentDb → IntentDb) where
  unfoldable pub create_intent : CreatePaymentIntent → AuthUser → Action IntentDb PaymentIntent
  unfolding insert_intent
  create_intent input user db = elim (find intent_key_of (input_key input user) db.intents) [
    | some existing ↦
        if not (is_replay existing (hash (hashed_intent input)) user)
        then (err idempotency_payload_conflict, db)
        else (ok existing, db)
    | none ↦
        insert_intent (between 1)
          (new_intent input user (hash (hashed_intent input)) (between 0 db).next_id) user
          (between 0 db)
  ]

-- `paymentIntent.findFirst` of `transition` and of `get`.
unfoldable pub find_intent : ℕ → AuthUser → List PaymentIntent → Option PaymentIntent
find_intent id user intents = elim (find intent_id_of id intents) [
  | none ↦ none
  | some i ↦
      if not i.deleted && nat_eq i.key.tenant_id user.tenant_id && nat_eq i.user_id user.sub
      then some i
      else none
]

abbrev pub unchanged_since : PaymentIntent → PaymentIntent → Bool
unchanged_since current i = i.status == current.status && nat_eq i.version current.version

-- The row is read again behind the write, and what was done is recorded.
unfoldable pub record_change : ℕ → AuthUser → String → Action IntentDb PaymentIntent
record_change id user name db = elim (find intent_id_of id db.intents) [
  | none ↦ (err not_found, db)
  | some updated ↦ (
    ok updated,
    record db {
      audit_log = intent_audit "PAYMENT_INTENT_STATE_CHANGED" updated.id user ∷ db.audit_log;
      outbox = intent_event name updated.id user ∷ db.outbox;
    },
  )
]

-- Another call was faster: its row does if it is in the target status.
unfoldable pub lost_race : ℕ → IntentStatus → Action IntentDb PaymentIntent
lost_race id target db = elim (find intent_id_of id db.intents) [
  | none ↦ (err optimistic_lock_conflict, db)
  | some raced ↦
      if raced.status == target then (ok raced, db) else (err optimistic_lock_conflict, db)
]

-- `updateMany` on the rows as they stand: whether it has written one.
unfoldable pub update_intent : PaymentIntent → IntentStatus → IntentChange → Action IntentDb Bool
unfolding breaks_intent_check moved_to_status
update_intent current target columns db = elim (find intent_id_of current.id db.intents) [
  | none ↦ (ok false, db)
  | some i ↦
      if not (unchanged_since current i)
      then (ok false, db)
      else if breaks_intent_check (moved_to_status target columns i)
      then (err constraint_violation, db)
      else (
        ok true,
        record db {
          intents = update intent_id_of current.id (moved_to_status target columns) db.intents;
        },
      )
]

-- `transition` from `updateMany` on; `between` is what others do before the row is read again, and
-- `name` the event of the target.
abbrev pub after_update :
    (IntentDb → IntentDb)
    → PaymentIntent
    → IntentStatus
    → AuthUser
    → String
    → Result Bool × IntentDb
    → Result PaymentIntent × IntentDb
after_update between current target user name (err x, db) = (err x, db)
after_update between current target user name (ok true, db) =
    record_change current.id user name (between db)
after_update between current target user name (ok false, db) =
    lost_race current.id target (between db)

unfoldable pub write_status :
    (IntentDb → IntentDb)
    → PaymentIntent
    → IntentStatus
    → AuthUser
    → IntentChange
    → String
    → Action IntentDb PaymentIntent
unfolding update_intent record_change lost_race
write_status between current target user columns name db =
    after_update between current target user name (update_intent current target columns db)

abbrev pub status_text : IntentStatus → String
status_text IntentStatus.created = "CREATED"
status_text IntentStatus.pending = "PENDING"
status_text IntentStatus.requires_action = "REQUIRES_ACTION"
status_text IntentStatus.authorized = "AUTHORIZED"
status_text IntentStatus.processing = "PROCESSING"
status_text IntentStatus.captured = "CAPTURED"
status_text IntentStatus.cancelled = "CANCELLED"
status_text IntentStatus.expired = "EXPIRED"
status_text IntentStatus.failed = "FAILED"
status_text IntentStatus.requires_review = "REQUIRES_REVIEW"
status_text IntentStatus.refunded = "REFUNDED"
status_text IntentStatus.partially_refunded = "PARTIALLY_REFUNDED"

-- `Payment${target}`
abbrev pub payment_event : IntentStatus → String
payment_event target = "Payment" ++ status_text target

-- `transition`. `between` is what others do to the tables between its statements: before its write,
-- and after that before the row is read again.
unfoldable pub transition :
    (ℕ → IntentDb → IntentDb)
    → ℕ
    → IntentStatus
    → AuthUser
    → IntentChange
    → Action IntentDb PaymentIntent
unfolding write_status
transition between id target user columns db = elim (find_intent id user db.intents) [
  | none ↦ (err not_found, db)
  | some current ↦ elim (assert_payment_intent_transition current.status target) [
    | err x ↦ (err x, db)
    | ok _ ↦
        if current.status == target
        then (ok current, db)
        else write_status (between 1) current target user columns (payment_event target)
            (between 0 db)
  ]
]
