-- ===== src/Ledger/Requests.antt =====
-- The inputs of the ledger's methods, what is hashed of a request, and the accounts.
use Prim.Native.String.{String as Text}
use ev_charge_platform.Prelude.{
  ℕ, zero, suc, ℤ, String, Option, none, some, List, ◌∷◌, find, Tx, ok, err, not,
  constraint_violation, if◌then◌else◌,
}
use ev_charge_platform.Money.{Money, matches_currency}
use ev_charge_platform.Database.{
  AccountKey, AccountKey_eq, LedgerAccount, AccountStatus, Direction, TransactionKey,
  TransactionKey_eq, LedgerTransaction, TransactionType, IntentType, AuditEntry, DomainEvent, Db,
}

pub record LedgerPostingEntry : Type 0 where
  pub account_id : ℕ
  pub direction : Direction
  pub money : Money

pub record LedgerPosting : Type 0 where
  pub charging_session_id : Option ℕ
  pub description : String
  pub entries : List LedgerPostingEntry
  pub external_reference : Option ℕ
  pub idempotency_key : String
  pub payment_intent_id : Option ℕ
  pub tenant_id : ℕ
  pub transaction_type : TransactionType
  pub user_id : Option ℕ

pub record HashedEntry : Type 0 where
  pub account_id : ℕ
  pub amount_minor : ℤ
  pub currency : String
  pub direction : Direction

-- The objects that are handed to `financialRequestHash`, by the place that builds them.
pub data HashedRequest : Type 0 where
  posting :
      (charging_session_id : Option ℕ) (description : String) (entries : List HashedEntry)
      (payment_intent_id reversal_of_id : Option ℕ) (transaction_type : TransactionType)
      → HashedRequest
  reservation :
      (amount_minor : ℤ) (charging_session_id : Option ℕ) (currency : String)
      (payment_intent_id : Option ℕ)
      → HashedRequest
  intent :
      (amount_minor : ℤ) (charging_session_id : Option ℕ) (currency provider : String)
      (intent_type : IntentType)
      → HashedRequest

-- `text.slice(0, n)`
unfoldable pub truncate : ℕ → String → String
truncate zero s = Text.[]
truncate (suc n) Text.[] = Text.[]
truncate (suc n) (Text.◌∷◌ c s) = Text.◌∷◌ c (truncate n s)

abbrev pub account_key_of : LedgerAccount → AccountKey
account_key_of a = a.key

abbrev pub transaction_key_of : LedgerTransaction → TransactionKey
transaction_key_of t = t.key

abbrev pub account_id_of : LedgerAccount → ℕ
account_id_of a = a.id

-- `LedgerRepository.findTransaction`
unfoldable pub find_transaction : Db → TransactionKey → Option LedgerTransaction
find_transaction db key = find transaction_key_of key db.transactions

-- `LedgerRepository.account`: the account under these columns, made if there is none. The table
-- wants a currency of three capital letters.
unfoldable pub account : AccountKey → Tx Db LedgerAccount
account key db = elim (find account_key_of key db.accounts) [
  | some a ↦ ok (a, db)
  | none ↦
      if not (matches_currency key.currency)
      then err constraint_violation
      else (let a : LedgerAccount = record {
        id = db.next_id;
        key = key;
        status = AccountStatus.active;
      } in
          ok (a, record db { accounts = a ∷ db.accounts; next_id = suc db.next_id }))
]

-- `client.auditLog.create` and `outbox.publish` with the transaction's client.
abbrev pub write_audit : AuditEntry → Tx Db (Unit {0})
write_audit e db = ok (tt, record db { audit_log = e ∷ db.audit_log })

abbrev pub publish : DomainEvent → Tx Db (Unit {0})
publish e db = ok (tt, record db { outbox = e ∷ db.outbox })
