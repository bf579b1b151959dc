-- ===== src/Wallet/Movement.antt =====
-- A method of the wallet moves the balances of the ledger by some amounts, and the row of one
-- wallet by the same.
use ev_charge_platform.Prelude.{
  ℕ, ◌≤◌, ◌≡◌, ◌∙◌, ◌≢◌, ◌⊎◌, ℤ, ◌+ℤ◌, int_laws, String, some, find, update, ℕ_eq, ok, arith, ap,
}
use ev_charge_platform.Database.{OwnerType, AccountType, AccountKey, Wallet, Db}
use ev_charge_platform.Ledger.Balance.{balance}
use ev_charge_platform.Ledger.Effects.{HasSoundBooks}
use ev_charge_platform.Ledger.Transfers.{moved}
use ev_charge_platform.Wallet.{wallet_id_of, update_wallet, user_key}
use ev_charge_platform.Wallet.Invariant.{
  Reconciles, Agrees, available_key, reserved_key, Reconciles-update,
}
use ev_charge_platform.Wallet.Accounts.{not_moved}

-- A key of the platform, or of the wallet with this number.
abbrev pub BelongsTo : ℕ → AccountKey → Type 0
BelongsTo wallet k = (k.owner_type ≡ OwnerType.platform) ⊎ (k.owner_id ≡ wallet)

other_wallet :
    (wallet : ℕ) (k : AccountKey) (tenant : ℕ) (currency : String) (v : ℕ) (type : AccountType)
    → BelongsTo wallet k
    → v ≢ wallet
    → k ≢ user_key tenant currency v type
other_wallet wallet k tenant currency v type b n e =
    ground (arith, ap (λ (x : AccountKey). x.owner_type) e, ap (λ (x : AccountKey). x.owner_id) e)

-- A transfer between accounts of one wallet and the platform moves no other wallet's balance.
pub moved_elsewhere :
    (wallet : ℕ) (from to : AccountKey) (n : ℤ) (tenant : ℕ) (currency : String) (v : ℕ)
    (type : AccountType)
    → BelongsTo wallet from
    → BelongsTo wallet to
    → v ≢ wallet
    → (x : ℤ) → x +ℤ moved from to n (user_key tenant currency v type) ≡ x
moved_elsewhere wallet from to n tenant currency v type f t d x =
    rw
      (not_moved from to (user_key tenant currency v type) n
        (other_wallet wallet from tenant currency v type f d)
        (other_wallet wallet to tenant currency v type t d))
      (omega int_laws)

-- The state between the postings of a method and the end of it: the balances have moved by `delta`
-- since `db`, and the wallet rows are still those of `db`.
pub record HasMoved (delta : AccountKey → ℤ) (db db' : Db) : Type 0 where
  pub sound : HasSoundBooks db'
  pub balances : (k : AccountKey) → balance k db' ≡ balance k db +ℤ delta k
  pub wallets : db'.wallets ≡ db.wallets
  pub accounts : db'.accounts ≡ db.accounts

-- One movement after another.
pub HasMoved-then :
    {d1 d2 : AccountKey → ℤ} {a b c : Db}
    → HasMoved d1 a b
    → HasMoved d2 b c
    → HasMoved (λ k. d1 k +ℤ d2 k) a c
HasMoved-then {d1} {d2} {a} m n = record {
  sound = n.sound;
  balances = λ k. rw (n.balances k, m.balances k) (omega int_laws);
  wallets = n.wallets ∙ m.wallets;
  accounts = n.accounts ∙ m.accounts;
}

-- What `change` must do to the row of `w` so that it follows `delta`.
pub record Follows (delta : AccountKey → ℤ) (change : Wallet → Wallet) (w : Wallet) : Type 0 where
  pub keeps :
      (v : Wallet)
      → ((change v).id ≡ v.id) × ((change v).owner ≡ v.owner) × ((change v).deleted ≡ v.deleted)
  pub available :
      (change w).available_balance_minor ≡ w.available_balance_minor +ℤ delta (available_key w)
  pub reserved :
      (change w).reserved_balance_minor ≡ w.reserved_balance_minor +ℤ delta (reserved_key w)
  pub elsewhere :
      (v : Wallet)
      → v.id ≢ w.id
      → (x : ℤ) → (x +ℤ delta (available_key v) ≡ x) × (x +ℤ delta (reserved_key v) ≡ x)

update_wallet-db :
    (id : ℕ) (change : Wallet → Wallet) (db : Db) {u : Unit {0}} {db' : Db}
    → update_wallet id change db ≡ ok (u, db')
    → (db'.wallets ≡ update wallet_id_of id change db.wallets)
      × (db'.accounts ≡ db.accounts)
      × (db'.transactions ≡ db.transactions)
      × (db'.next_id ≡ db.next_id)
unfolding update_wallet
update_wallet-db id change db h = ground arith

-- Only the accounts, the transactions and the next number count for the books.
pub same_books :
    {db db' : Db}
    → db'.accounts ≡ db.accounts
    → db'.transactions ≡ db.transactions
    → db.next_id ≤ db'.next_id
    → HasSoundBooks db
    → HasSoundBooks db' × ((k : AccountKey) → balance k db' ≡ balance k db)
unfolding balance
same_books a t n s = (
  record {
    fresh = λ k x h. omega (arith, n, s.fresh k x (rw a at h));
    apart = λ k l x y h g e. s.apart k l x y (rw a at h) (rw a at g) e;
    unused = λ i h. rw t (s.unused i (omega (arith, n, h)));
  },
  λ k. rw (a, t),
)

module _ {delta : AccountKey → ℤ} {change : Wallet → Wallet} {w : Wallet} {db db' : Db}
    (before : Reconciles db) (found : find wallet_id_of w.id db.wallets ≡ some w)
    (m : HasMoved delta db db') (f : Follows delta change w) where
  key_kept :
      (type : AccountType)
      → user_key (change w).owner.tenant_id (change w).owner.currency (change w).id type
        ≡ user_key w.owner.tenant_id w.owner.currency w.id type
  key_kept type = ground (arith, f.keeps w)

  follows_here :
      {db'' : Db} → ((k : AccountKey) → balance k db'' ≡ balance k db') → Agrees db'' (change w)
  follows_here same =
      let a = before.rows w.id w found in
      record {
        available = rw (
          f.available,
          key_kept AccountType.user_wallet_available,
          same (available_key w),
          m.balances (available_key w),
          a.available,
        );
        reserved = rw (
          f.reserved,
          key_kept AccountType.user_wallet_reserved,
          same (reserved_key w),
          m.balances (reserved_key w),
          a.reserved,
        );
      }

  follows_elsewhere :
      {db'' : Db}
      → ((k : AccountKey) → balance k db'' ≡ balance k db')
      → (v : Wallet) → v.id ≢ w.id
      → Agrees db v
      → Agrees db'' v
  follows_elsewhere same v n a =
      let (e1, _) = f.elsewhere v n (balance (available_key v) db) in
      let (_, e2) = f.elsewhere v n (balance (reserved_key v) db) in
      record {
        available = rw (same (available_key v), m.balances (available_key v), e1) a.available;
        reserved = rw (same (reserved_key v), m.balances (reserved_key v), e2) a.reserved;
      }

  -- The row follows, and the tables agree again.
  pub update_wallet-Reconciles :
      {u : Unit {0}} {db'' : Db} → update_wallet w.id change db' ≡ ok (u, db'') → Reconciles db''
  update_wallet-Reconciles {db''} h =
      let (ws, as', ts, n) = update_wallet-db w.id change db' h in
      let (sound, same) = same_books {db = db'} {db' = db''} as' ts (omega (arith, n)) m.sound in
      Reconciles-update change before f.keeps found sound
        (ws ∙ ap (update wallet_id_of w.id change) m.wallets) (follows_here same)
        (follows_elsewhere same)
