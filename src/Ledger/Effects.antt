-- ===== src/Ledger/Effects.antt =====
-- What the ledger's methods do to the balances of the accounts.
use ev_charge_platform.Prelude.{
  ℕ, suc, ◌≤◌, ◌<◌, ◌≡◌, refl, ◌∙◌, ◌⊎◌, inl, inr, pos, none, some, ◌∷◌, ℕ_eq, find, arith, ok,
}
use ev_charge_platform.Database.{
  AccountKey, AccountKey_eq, same_account_key_iff, LedgerAccount, AccountStatus, Db,
}
use ev_charge_platform.Ledger.{account_key_of, account}
use ev_charge_platform.Ledger.Balance.{net, balance}

-- Accounts are told apart by their number, and numbers that are still to be given out have no
-- entries.
pub record HasSoundBooks (db : Db) : Type 0 where
  pub fresh :
      (k : AccountKey) (a : LedgerAccount)
      → find account_key_of k db.accounts ≡ some a
      → a.id < db.next_id
  pub apart :
      (k l : AccountKey) (a b : LedgerAccount)
      → find account_key_of k db.accounts ≡ some a
      → find account_key_of l db.accounts ≡ some b
      → a.id ≡ b.id
      → k ≡ l
  pub unused : (n : ℕ) → db.next_id ≤ n → net n db.transactions ≡ pos 0

-- What a lookup of accounts leaves alone, and what it may add.
pub record Extends (db db' : Db) : Type 0 where
  pub grows : db.next_id ≤ db'.next_id
  pub transactions : db'.transactions ≡ db.transactions
  pub wallets : db'.wallets ≡ db.wallets
  pub reservations : db'.reservations ≡ db.reservations
  pub keeps :
      (k : AccountKey) (a : LedgerAccount)
      → find account_key_of k db.accounts ≡ some a
      → find account_key_of k db'.accounts ≡ some a
  pub balances : (k : AccountKey) → balance k db' ≡ balance k db

pub Extends-refl : (db : Db) → Extends db db
Extends-refl db = record {
  grows = omega arith;
  transactions = refl;
  wallets = refl;
  reservations = refl;
  keeps = λ k a h. h;
  balances = λ k. refl;
}

abbrev made_account : AccountKey → Db → LedgerAccount
made_account key db = record { id = db.next_id; key = key; status = AccountStatus.active }

abbrev with_account : AccountKey → Db → Db
with_account key db = record db {
  accounts = made_account key db ∷ db.accounts;
  next_id = suc db.next_id;
}

module _ (key : AccountKey) (db : Db) (sound : HasSoundBooks db)
    (missing : find account_key_of key db.accounts ≡ none) where
  with_account-HasSoundBooks : HasSoundBooks (with_account key db)
  with_account-HasSoundBooks = record {
    fresh = λ k a h. ground (arith, sound.fresh k a);
    apart = λ k l a b h g e. ground (
      arith,
      sound.fresh k a,
      sound.fresh l b,
      sound.apart k l a b,
      same_account_key_iff key k,
      same_account_key_iff key l,
    );
    unused = λ n h. sound.unused n (omega arith);
  }

  with_account-Extends : Extends db (with_account key db)
  unfolding balance
  with_account-Extends = record {
    grows = omega arith;
    transactions = refl;
    wallets = refl;
    reservations = refl;
    keeps = λ k a h. ground (arith, same_account_key_iff key k);
    balances =
        λ k. ground (arith, same_account_key_iff key k, sound.unused db.next_id (omega arith));
  }

account-cases :
    (key : AccountKey) (db : Db) {a : LedgerAccount} {db' : Db}
    → account key db ≡ ok (a, db')
    → ((find account_key_of key db.accounts ≡ some a) × (db' ≡ db))
      ⊎ ((find account_key_of key db.accounts ≡ none)
          × (a ≡ made_account key db)
          × (db' ≡ with_account key db))
unfolding account
account-cases key db h = ground arith

-- Looking an account up, and making it where it is missing, keeps the books sound and every
-- balance as it was; the account returned is the one under the key from then on.
pub account_effect :
    (key : AccountKey) (db : Db) {a : LedgerAccount} {db' : Db}
    → HasSoundBooks db
    → account key db ≡ ok (a, db')
    → HasSoundBooks db' × Extends db db' × (find account_key_of key db'.accounts ≡ some a)
account_effect key db {a} {db'} sound h = elim (account-cases key db h) [
  | inl (found, same) ↦ rw same (sound, Extends-refl db, found)
  | inr (missing, a_new, db_new) ↦
      rw (db_new, a_new)
        (
          with_account-HasSoundBooks key db sound missing,
          with_account-Extends key db sound missing,
          ground (arith, same_account_key_iff key key),
        )
]

pub Extends-trans : {a b c : Db} → Extends a b → Extends b c → Extends a c
Extends-trans f g = record {
  grows = omega (arith, f.grows, g.grows);
  transactions = g.transactions ∙ f.transactions;
  wallets = g.wallets ∙ f.wallets;
  reservations = g.reservations ∙ f.reservations;
  keeps = λ k x h. g.keeps k x (f.keeps k x h);
  balances = λ k. g.balances k ∙ f.balances k;
}
