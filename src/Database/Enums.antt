-- ===== src/Database/Enums.antt =====
-- The enumerations of packages/database/prisma/schema.prisma that the financial code branches on.
use ev_charge_platform.Prelude.{ℕ, ◌≡◌, ◌↔◌, Bool, true, nat_eq, Comparable, arith}

pub data OwnerType : Type 0 where
  user platform operator : OwnerType

abbrev owner_type_rank : OwnerType → ℕ
owner_type_rank OwnerType.user = 0
owner_type_rank OwnerType.platform = 1
owner_type_rank OwnerType.operator = 2

abbrev pub same_owner_type : OwnerType → OwnerType → Bool
same_owner_type a b = nat_eq (owner_type_rank a) (owner_type_rank b)

pub same_owner_type_iff : (a b : OwnerType) → (same_owner_type a b ≡ true) ↔ (a ≡ b)
same_owner_type_iff a b = ground arith

instance abbrev pub OwnerType_eq : Comparable OwnerType
OwnerType_eq = record { same = same_owner_type; tells = same_owner_type_iff }

pub data AccountType : Type 0 where
  user_wallet_available user_wallet_reserved payment_gateway_clearing operator_revenue
        refund_clearing payment_fees reconciliation_clearing :
      AccountType

abbrev account_type_rank : AccountType → ℕ
account_type_rank AccountType.user_wallet_available = 0
account_type_rank AccountType.user_wallet_reserved = 1
account_type_rank AccountType.payment_gateway_clearing = 2
account_type_rank AccountType.operator_revenue = 3
account_type_rank AccountType.refund_clearing = 4
account_type_rank AccountType.payment_fees = 5
account_type_rank AccountType.reconciliation_clearing = 6

abbrev pub same_account_type : AccountType → AccountType → Bool
same_account_type a b = nat_eq (account_type_rank a) (account_type_rank b)

pub same_account_type_iff : (a b : AccountType) → (same_account_type a b ≡ true) ↔ (a ≡ b)
same_account_type_iff a b = ground arith

instance abbrev pub AccountType_eq : Comparable AccountType
AccountType_eq = record { same = same_account_type; tells = same_account_type_iff }

pub data AccountStatus : Type 0 where
  active blocked closed : AccountStatus

abbrev account_status_rank : AccountStatus → ℕ
account_status_rank AccountStatus.active = 0
account_status_rank AccountStatus.blocked = 1
account_status_rank AccountStatus.closed = 2

abbrev pub same_account_status : AccountStatus → AccountStatus → Bool
same_account_status a b = nat_eq (account_status_rank a) (account_status_rank b)

pub same_account_status_iff : (a b : AccountStatus) → (same_account_status a b ≡ true) ↔ (a ≡ b)
same_account_status_iff a b = ground arith

instance abbrev pub AccountStatus_eq : Comparable AccountStatus
AccountStatus_eq = record { same = same_account_status; tells = same_account_status_iff }

pub data Direction : Type 0 where
  debit credit : Direction

abbrev direction_rank : Direction → ℕ
direction_rank Direction.debit = 0
direction_rank Direction.credit = 1

abbrev pub same_direction : Direction → Direction → Bool
same_direction a b = nat_eq (direction_rank a) (direction_rank b)

pub same_direction_iff : (a b : Direction) → (same_direction a b ≡ true) ↔ (a ≡ b)
same_direction_iff a b = ground arith

instance abbrev pub Direction_eq : Comparable Direction
Direction_eq = record { same = same_direction; tells = same_direction_iff }

pub data TransactionType : Type 0 where
  top_up authorization capture release refund adjustment auto_recharge reversal : TransactionType

abbrev transaction_type_rank : TransactionType → ℕ
transaction_type_rank TransactionType.top_up = 0
transaction_type_rank TransactionType.authorization = 1
transaction_type_rank TransactionType.capture = 2
transaction_type_rank TransactionType.release = 3
transaction_type_rank TransactionType.refund = 4
transaction_type_rank TransactionType.adjustment = 5
transaction_type_rank TransactionType.auto_recharge = 6
transaction_type_rank TransactionType.reversal = 7

abbrev pub same_transaction_type : TransactionType → TransactionType → Bool
same_transaction_type a b = nat_eq (transaction_type_rank a) (transaction_type_rank b)

pub same_transaction_type_iff :
    (a b : TransactionType) → (same_transaction_type a b ≡ true) ↔ (a ≡ b)
same_transaction_type_iff a b = ground arith

instance abbrev pub TransactionType_eq : Comparable TransactionType
TransactionType_eq = record { same = same_transaction_type; tells = same_transaction_type_iff }

pub data TransactionStatus : Type 0 where
  pending posted reversed failed : TransactionStatus

abbrev transaction_status_rank : TransactionStatus → ℕ
transaction_status_rank TransactionStatus.pending = 0
transaction_status_rank TransactionStatus.posted = 1
transaction_status_rank TransactionStatus.reversed = 2
transaction_status_rank TransactionStatus.failed = 3

abbrev pub same_transaction_status : TransactionStatus → TransactionStatus → Bool
same_transaction_status a b = nat_eq (transaction_status_rank a) (transaction_status_rank b)

pub same_transaction_status_iff :
    (a b : TransactionStatus) → (same_transaction_status a b ≡ true) ↔ (a ≡ b)
same_transaction_status_iff a b = ground arith

instance abbrev pub TransactionStatus_eq : Comparable TransactionStatus
TransactionStatus_eq = record {
  same = same_transaction_status;
  tells = same_transaction_status_iff;
}

pub data WalletStatus : Type 0 where
  active blocked closed : WalletStatus

abbrev wallet_status_rank : WalletStatus → ℕ
wallet_status_rank WalletStatus.active = 0
wallet_status_rank WalletStatus.blocked = 1
wallet_status_rank WalletStatus.closed = 2

abbrev pub same_wallet_status : WalletStatus → WalletStatus → Bool
same_wallet_status a b = nat_eq (wallet_status_rank a) (wallet_status_rank b)

pub same_wallet_status_iff : (a b : WalletStatus) → (same_wallet_status a b ≡ true) ↔ (a ≡ b)
same_wallet_status_iff a b = ground arith

instance abbrev pub WalletStatus_eq : Comparable WalletStatus
WalletStatus_eq = record { same = same_wallet_status; tells = same_wallet_status_iff }

pub data ReservationStatus : Type 0 where
  reserved captured released failed : ReservationStatus

abbrev reservation_status_rank : ReservationStatus → ℕ
reservation_status_rank ReservationStatus.reserved = 0
reservation_status_rank ReservationStatus.captured = 1
reservation_status_rank ReservationStatus.released = 2
reservation_status_rank ReservationStatus.failed = 3

abbrev pub same_reservation_status : ReservationStatus → ReservationStatus → Bool
same_reservation_status a b = nat_eq (reservation_status_rank a) (reservation_status_rank b)

pub same_reservation_status_iff :
    (a b : ReservationStatus) → (same_reservation_status a b ≡ true) ↔ (a ≡ b)
same_reservation_status_iff a b = ground arith

instance abbrev pub ReservationStatus_eq : Comparable ReservationStatus
ReservationStatus_eq = record {
  same = same_reservation_status;
  tells = same_reservation_status_iff;
}
