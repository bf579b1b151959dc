-- ===== src/Ledger/Balance.antt =====
-- The balance of an account: credits less debits over all entries of the ledger. No PENDING row
-- outlives the transaction that made it, and a REVERSED one is undone by entries of its own, so the
-- status plays no part.
use ev_charge_platform.Prelude.{
  ℕ, ◌≡◌, refl, ℤ, pos, ◌+ℤ◌, ◌-ℤ◌, none, some, List, [], ◌∷◌, nat_eq, ℕ_eq, find, update,
  if◌then◌else◌, arith,
}
use ev_charge_platform.Database.{
  Direction, AccountKey, AccountKey_eq, LedgerAccount, LedgerEntry, LedgerTransaction,
  TransactionStatus, Db,
}
use ev_charge_platform.Ledger.{account_key_of}
use ev_charge_platform.Ledger.Posting.{transaction_id_of, set_status}

abbrev pub signed : Direction → ℤ → ℤ
signed Direction.credit n = n
signed Direction.debit n = pos 0 -ℤ n

abbrev pub entries_net : ℕ → List LedgerEntry → ℤ
entries_net a [] = pos 0
entries_net a (e ∷ es) =
    (if nat_eq e.account_id a then signed e.direction e.amount_minor else pos 0) +ℤ entries_net a es

abbrev pub net : ℕ → List LedgerTransaction → ℤ
net a [] = pos 0
net a (t ∷ ts) = entries_net a t.entries +ℤ net a ts

-- The balance of the account under a key; one that was never made stands at zero.
unfoldable pub balance : AccountKey → Db → ℤ
balance key db = elim (find account_key_of key db.accounts) [
  | none ↦ pos 0
  | some a ↦ net a.id db.transactions
]

-- A change of status moves no money.
pub net-set_status :
    (a id : ℕ) (s : TransactionStatus) (ts : List LedgerTransaction)
    → net a (update transaction_id_of id (set_status s) ts) ≡ net a ts
net-set_status a id s [] = refl
net-set_status a id s (t ∷ ts) = ground (arith, net-set_status a id s ts)

pub balance-found :
    (k : AccountKey) (a : LedgerAccount) (db : Db)
    → find account_key_of k db.accounts ≡ some a
    → balance k db ≡ net a.id db.transactions
unfolding balance
balance-found k a db h = ground arith

pub balance-missing :
    (k : AccountKey) (db : Db) → find account_key_of k db.accounts ≡ none → balance k db ≡ pos 0
unfolding balance
balance-missing k db h = ground arith
