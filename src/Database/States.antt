-- ===== src/Database/States.antt =====
-- The state enumerations of packages/database/prisma/schema.prisma whose changes a state machine
-- guards.
use ev_charge_platform.Prelude.{ℕ, ◌≡◌, ◌↔◌, Bool, true, nat_eq, Comparable, arith}

pub data IntentStatus : Type 0 where
  created pending requires_action authorized processing captured cancelled expired failed
        requires_review refunded partially_refunded :
      IntentStatus

abbrev intent_status_rank : IntentStatus → ℕ
intent_status_rank IntentStatus.created = 0
intent_status_rank IntentStatus.pending = 1
intent_status_rank IntentStatus.requires_action = 2
intent_status_rank IntentStatus.authorized = 3
intent_status_rank IntentStatus.processing = 4
intent_status_rank IntentStatus.captured = 5
intent_status_rank IntentStatus.cancelled = 6
intent_status_rank IntentStatus.expired = 7
intent_status_rank IntentStatus.failed = 8
intent_status_rank IntentStatus.requires_review = 9
intent_status_rank IntentStatus.refunded = 10
intent_status_rank IntentStatus.partially_refunded = 11

abbrev pub same_intent_status : IntentStatus → IntentStatus → Bool
same_intent_status a b = nat_eq (intent_status_rank a) (intent_status_rank b)

pub same_intent_status_iff : (a b : IntentStatus) → (same_intent_status a b ≡ true) ↔ (a ≡ b)
same_intent_status_iff a b = ground arith

instance abbrev pub IntentStatus_eq : Comparable IntentStatus
IntentStatus_eq = record { same = same_intent_status; tells = same_intent_status_iff }

pub data SessionStatus : Type 0 where
  pending authorized starting charging stopping completed failed cancelled : SessionStatus

abbrev session_status_rank : SessionStatus → ℕ
session_status_rank SessionStatus.pending = 0
session_status_rank SessionStatus.authorized = 1
session_status_rank SessionStatus.starting = 2
session_status_rank SessionStatus.charging = 3
session_status_rank SessionStatus.stopping = 4
session_status_rank SessionStatus.completed = 5
session_status_rank SessionStatus.failed = 6
session_status_rank SessionStatus.cancelled = 7

abbrev pub same_session_status : SessionStatus → SessionStatus → Bool
same_session_status a b = nat_eq (session_status_rank a) (session_status_rank b)

pub same_session_status_iff : (a b : SessionStatus) → (same_session_status a b ≡ true) ↔ (a ≡ b)
same_session_status_iff a b = ground arith

instance abbrev pub SessionStatus_eq : Comparable SessionStatus
SessionStatus_eq = record { same = same_session_status; tells = same_session_status_iff }

pub data ConnectorStatus : Type 0 where
  available occupied reserved offline maintenance : ConnectorStatus

abbrev connector_status_rank : ConnectorStatus → ℕ
connector_status_rank ConnectorStatus.available = 0
connector_status_rank ConnectorStatus.occupied = 1
connector_status_rank ConnectorStatus.reserved = 2
connector_status_rank ConnectorStatus.offline = 3
connector_status_rank ConnectorStatus.maintenance = 4

abbrev pub same_connector_status : ConnectorStatus → ConnectorStatus → Bool
same_connector_status a b = nat_eq (connector_status_rank a) (connector_status_rank b)

pub same_connector_status_iff :
    (a b : ConnectorStatus) → (same_connector_status a b ≡ true) ↔ (a ≡ b)
same_connector_status_iff a b = ground arith

instance abbrev pub ConnectorStatus_eq : Comparable ConnectorStatus
ConnectorStatus_eq = record { same = same_connector_status; tells = same_connector_status_iff }

pub data IntentType : Type 0 where
  wallet_top_up charging_authorization charging_capture auto_recharge refund : IntentType

abbrev intent_type_rank : IntentType → ℕ
intent_type_rank IntentType.wallet_top_up = 0
intent_type_rank IntentType.charging_authorization = 1
intent_type_rank IntentType.charging_capture = 2
intent_type_rank IntentType.auto_recharge = 3
intent_type_rank IntentType.refund = 4

abbrev pub same_intent_type : IntentType → IntentType → Bool
same_intent_type a b = nat_eq (intent_type_rank a) (intent_type_rank b)

pub same_intent_type_iff : (a b : IntentType) → (same_intent_type a b ≡ true) ↔ (a ≡ b)
same_intent_type_iff a b = ground arith

instance abbrev pub IntentType_eq : Comparable IntentType
IntentType_eq = record { same = same_intent_type; tells = same_intent_type_iff }
