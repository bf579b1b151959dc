-- ===== src/Wallet/Steps.antt =====
-- The steps that the wallet's methods share, and what each does to the agreement of the tables.
use ev_charge_platform.Prelude.{
  ℕ, ◌≤◌, ◌≡◌, refl, sym, ◌∙◌, ◌≢◌, ℤ, ◌+ℤ◌, ◌-ℤ◌, int_laws, String, Bool, true, false, some, find,
  ℕ_eq, Tx, ok, arith, ap,
}
use ev_charge_platform.Money.{Money}
use ev_charge_platform.Database.{
  AuthUser, AccountType, AccountKey, AccountKey_eq, same_account_key, same_account_key_iff,
  LedgerAccount, Wallet, Db,
}
use ev_charge_platform.Ledger.{account_key_of, LedgerPosting}
use ev_charge_platform.Ledger.Effects.{HasSoundBooks}
use ev_charge_platform.Ledger.Transfers.{legs, moved, transfer-HasSoundBooks, transfer-balance}
use ev_charge_platform.Ledger.Writes.{IsPosted}
use ev_charge_platform.Wallet.{
  WalletDto, WalletAccounts, wallet_id_of, owner_of, lock_active_wallet, current_dto,
  wallet_accounts, record_wallet_event, unless, user_key,
}
use ev_charge_platform.Wallet.Invariant.{
  Reconciles, available_key, reserved_key, Reconciles-Extends, lock_active_wallet_lem,
}
use ev_charge_platform.Wallet.Accounts.{HasAccounts, wallet_accounts_effect, not_moved}
use ev_charge_platform.Wallet.Movement.{HasMoved, same_books}

-- Writes to the other tables.
pub Reconciles-same :
    {db db' : Db}
    → db'.accounts ≡ db.accounts
    → db'.transactions ≡ db.transactions
    → db.next_id ≤ db'.next_id
    → db'.wallets ≡ db.wallets
    → Reconciles db
    → Reconciles db'
Reconciles-same {db} {db'} a t n ws r =
    let (sound, same) = same_books {db = db} {db' = db'} a t n r.books in
    record {
      books = sound;
      rows = λ id w h.
          let x = r.rows id w (rw ws at h) in
          record {
            available = x.available ∙ sym (same (available_key w));
            reserved = x.reserved ∙ sym (same (reserved_key w));
          };
      owned = λ owner w h. rw ws (r.owned owner w (rw ws at h));
    }

pub record_wallet_event-Reconciles :
    (user : AuthUser) (wallet : ℕ) (action event_type : String) (correlation : ℕ) (db : Db)
    {u : Unit {0}} {db' : Db}
    → Reconciles db
    → record_wallet_event user wallet action event_type correlation db ≡ ok (u, db')
    → Reconciles db'
unfolding record_wallet_event
record_wallet_event-Reconciles user wallet action event_type correlation db r h =
    Reconciles-same (ground arith) (ground arith) (ground arith) (ground arith) r

pub current_dto-db :
    (id : ℕ) (db : Db) {d : WalletDto} {db' : Db} → current_dto id db ≡ ok (d, db') → db' ≡ db
unfolding current_dto
current_dto-db id db h = ground arith

-- A locked wallet with its accounts looked up.
pub record IsOpen (w : Wallet) (a : WalletAccounts) (db : Db) : Type 0 where
  pub agrees : Reconciles db
  pub accounts : HasAccounts w.id w.owner.tenant_id w.owner.currency a db
  pub found : find wallet_id_of w.id db.wallets ≡ some w

pub opened :
    (user : AuthUser) (currency : String) (db : Db) {w : Wallet} {a : WalletAccounts} {d0 d1 : Db}
    → Reconciles db
    → lock_active_wallet user currency db ≡ ok (w, d0)
    → wallet_accounts w.id user.tenant_id currency d0 ≡ ok (a, d1)
    → IsOpen w a d1
opened user currency db {w} {a} {d0} {d1} r locked looked =
    let (same, owned, owner, _) = lock_active_wallet_lem user currency db locked in
    let (sound, more, has) =
      wallet_accounts_effect w.id user.tenant_id currency db r.books (rw same at looked) in
    record {
      agrees = Reconciles-Extends r sound more;
      accounts = rw owner has;
      found = rw more.wallets (r.owned (owner_of user currency) w owned);
    }

pub posted-HasMoved :
    {from to : LedgerAccount} (from_key to_key : AccountKey) {money : Money} {input : LedgerPosting}
    {db db' : Db}
    → HasSoundBooks db
    → find account_key_of from_key db.accounts ≡ some from
    → find account_key_of to_key db.accounts ≡ some to
    → from_key ≢ to_key
    → input.entries ≡ legs from.id to.id money
    → IsPosted input db db'
    → HasMoved (moved from_key to_key money.amount_minor) db db'
posted-HasMoved from_key to_key sound f t d two p = record {
  sound = transfer-HasSoundBooks sound f t d two p;
  balances = transfer-balance sound f t d two p;
  wallets = p.wallets;
  accounts = p.accounts;
}

differing_keys : (k l : AccountKey) → k ≢ l → same_account_key k l ≡ false
differing_keys k l d = ground (arith, same_account_key_iff k l)

-- What a transfer does to the account that it enters, and to the one that it leaves.
pub moved_to : (from to : AccountKey) (n x : ℤ) → from ≢ to → x +ℤ moved from to n to ≡ x +ℤ n
moved_to from to n x d =
    rw ((same_account_key_iff to to).1 refl, differing_keys from to d) (omega int_laws)

pub moved_from : (from to : AccountKey) (n x : ℤ) → from ≢ to → x +ℤ moved from to n from ≡ x -ℤ n
moved_from from to n x d =
    rw ((same_account_key_iff from from).1 refl, differing_keys to from (λ e. d (sym e)))
      (omega int_laws)

pub moved_other :
    (from to k : AccountKey) (n x : ℤ) → from ≢ k → to ≢ k → x +ℤ moved from to n k ≡ x
moved_other from to k n x f t = rw (not_moved from to k n f t) (omega int_laws)

-- Keys of different kinds differ.
pub type_apart :
    (t o : ℕ) (c : String)
    → user_key t c o AccountType.user_wallet_available
      ≢ user_key t c o AccountType.user_wallet_reserved
type_apart t o c e = cc (ap (λ (k : AccountKey). k.account_type) e)

pub unless-replayed :
    (b : Bool) (m : Tx Db (Unit {0})) (db : Db) {u : Unit {0}} {db' : Db}
    → b ≡ true
    → unless b m db ≡ ok (u, db')
    → db' ≡ db
unless-replayed true m db e h = ground arith
unless-replayed false m db e h = cc

pub unless-written :
    (b : Bool) (m : Tx Db (Unit {0})) (db : Db) {u : Unit {0}} {db' : Db}
    → b ≡ false
    → unless b m db ≡ ok (u, db')
    → m db ≡ ok (u, db')
unless-written true m db e h = cc
unless-written false m db e h = h

pub IsOpen-same :
    {w : Wallet} {a : WalletAccounts} {db db' : Db}
    → db'.accounts ≡ db.accounts
    → db'.transactions ≡ db.transactions
    → db.next_id ≤ db'.next_id
    → db'.wallets ≡ db.wallets
    → IsOpen w a db
    → IsOpen w a db'
IsOpen-same {db = db} {db' = db'} as' ts n ws o = record {
  agrees = Reconciles-same {db = db} {db' = db'} as' ts n ws o.agrees;
  accounts = record {
    available = rw as' o.accounts.available;
    reserved = rw as' o.accounts.reserved;
    clearing = rw as' o.accounts.clearing;
    revenue = rw as' o.accounts.revenue;
    refund = rw as' o.accounts.refund;
  };
  found = rw ws o.found;
}

pub opened-transactions :
    (user : AuthUser) (currency : String) (db : Db) {w : Wallet} {a : WalletAccounts} {d0 d1 : Db}
    → Reconciles db
    → lock_active_wallet user currency db ≡ ok (w, d0)
    → wallet_accounts w.id user.tenant_id currency d0 ≡ ok (a, d1)
    → d1.transactions ≡ db.transactions
opened-transactions user currency db {w} r locked looked =
    let (same, _, _, _) = lock_active_wallet_lem user currency db locked in
    (wallet_accounts_effect w.id user.tenant_id currency db r.books
      (rw same at looked)).1.transactions

pub HasMoved-same :
    {delta : AccountKey → ℤ} {db d1 d2 : Db}
    → d2.accounts ≡ d1.accounts
    → d2.transactions ≡ d1.transactions
    → d1.next_id ≤ d2.next_id
    → d2.wallets ≡ d1.wallets
    → HasMoved delta db d1
    → HasMoved delta db d2
HasMoved-same {d1 = d1} {d2 = d2} as' ts n ws m =
    let (sound, same) = same_books {db = d1} {db' = d2} as' ts n m.sound in
    record {
      sound = sound;
      balances = λ k. same k ∙ m.balances k;
      wallets = ws ∙ m.wallets;
      accounts = as' ∙ m.accounts;
    }
