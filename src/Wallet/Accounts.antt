-- ===== src/Wallet/Accounts.antt =====
-- The accounts of a wallet are five different ones, and looking them up moves no money.
use ev_charge_platform.Prelude.{
  ℕ, ◌≡◌, ◌≢◌, ℤ, pos, ◌-ℤ◌, String, some, find, arith, ok, pure, >>=-then,
}
use ev_charge_platform.Database.{
  AccountType, AccountKey, AccountKey_eq, same_account_key_iff, LedgerAccount, Db,
}
use ev_charge_platform.Ledger.{account_key_of, account}
use ev_charge_platform.Ledger.Effects.{
  HasSoundBooks, Extends, Extends-refl, Extends-trans, account_effect,
}
use ev_charge_platform.Ledger.Transfers.{moved}
use ev_charge_platform.Wallet.{WalletAccounts, wallet_accounts, user_key, platform_key}

-- The accounts stand in the table under their keys.
pub record HasAccounts (wallet tenant : ℕ) (currency : String) (a : WalletAccounts) (db : Db)
    : Type 0 where
  pub available :
      find account_key_of
        (user_key tenant currency wallet AccountType.user_wallet_available)
        db.accounts
      ≡ some a.available
  pub reserved :
      find account_key_of
        (user_key tenant currency wallet AccountType.user_wallet_reserved)
        db.accounts
      ≡ some a.reserved
  pub clearing :
      find account_key_of
        (platform_key tenant currency AccountType.payment_gateway_clearing)
        db.accounts
      ≡ some a.clearing
  pub revenue :
      find account_key_of (platform_key tenant currency AccountType.operator_revenue) db.accounts
      ≡ some a.revenue
  pub refund :
      find account_key_of (platform_key tenant currency AccountType.refund_clearing) db.accounts
      ≡ some a.refund

ok-injective : {A : Type 0} {x y : A} {s t : Db} → pure x s ≡ pure y t → (x ≡ y) × (s ≡ t)
ok-injective h = ground arith

-- What has been looked up so far, from `db` to `db'`.
step :
    {db db' db'' : Db} (k : AccountKey) {a : LedgerAccount}
    → HasSoundBooks db' × Extends db db'
    → account k db' ≡ ok (a, db'')
    → HasSoundBooks db''
      × Extends db db''
      × Extends db' db''
      × (find account_key_of k db''.accounts ≡ some a)
step {db' = db'} k (sound, e) h =
    let (sound', e', found) = account_effect k db' sound h in
    (sound', Extends-trans e e', e', found)

-- The five lookups in a row.
looked_up :
    {wallet tenant : ℕ} {currency : String} {db d1 d2 d3 d4 d5 db' : Db}
    {available reserved clearing revenue refund : LedgerAccount} {a : WalletAccounts}
    → HasSoundBooks db
    → account (user_key tenant currency wallet AccountType.user_wallet_available) db
      ≡ ok (available, d1)
    → account (user_key tenant currency wallet AccountType.user_wallet_reserved) d1
      ≡ ok (reserved, d2)
    → account (platform_key tenant currency AccountType.payment_gateway_clearing) d2
      ≡ ok (clearing, d3)
    → account (platform_key tenant currency AccountType.operator_revenue) d3 ≡ ok (revenue, d4)
    → account (platform_key tenant currency AccountType.refund_clearing) d4 ≡ ok (refund, d5)
    → pure
        (record {
          available = available;
          reserved = reserved;
          clearing = clearing;
          revenue = revenue;
          refund = refund;
        })
        d5
      ≡ ok (a, db')
    → HasSoundBooks db' × Extends db db' × HasAccounts wallet tenant currency a db'
looked_up {wallet} {tenant} {currency} {db = db} sound e1 e2 e3 e4 e5 h =
    let (s1, x1, y1, f1) =
      step (user_key tenant currency wallet AccountType.user_wallet_available)
        (sound, Extends-refl db) e1 in
    let (s2, x2, y2, f2) =
      step (user_key tenant currency wallet AccountType.user_wallet_reserved) (s1, x1) e2 in
    let (s3, x3, y3, f3) =
      step (platform_key tenant currency AccountType.payment_gateway_clearing) (s2, x2) e3 in
    let (s4, x4, y4, f4) =
      step (platform_key tenant currency AccountType.operator_revenue) (s3, x3) e4 in
    let (s5, x5, y5, f5) =
      step (platform_key tenant currency AccountType.refund_clearing) (s4, x4) e5 in
    let (same_a, same_db) = ok-injective h in
    rw (← same_a, ← same_db)
      (
        s5,
        x5,
        record {
          available = y5.keeps _ _ (y4.keeps _ _ (y3.keeps _ _ (y2.keeps _ _ f1)));
          reserved = y5.keeps _ _ (y4.keeps _ _ (y3.keeps _ _ f2));
          clearing = y5.keeps _ _ (y4.keeps _ _ f3);
          revenue = y5.keeps _ _ f4;
          refund = f5;
        },
      )

pub wallet_accounts_effect :
    (wallet tenant : ℕ) (currency : String) (db : Db) {a : WalletAccounts} {db' : Db}
    → HasSoundBooks db
    → wallet_accounts wallet tenant currency db ≡ ok (a, db')
    → HasSoundBooks db' × Extends db db' × HasAccounts wallet tenant currency a db'
unfolding wallet_accounts
wallet_accounts_effect wallet tenant currency db {a} {db'} sound h =
    >>=-then (account (user_key tenant currency wallet AccountType.user_wallet_available)) _ db h
      λ available d1 e1 h1.
        >>=-then (account (user_key tenant currency wallet AccountType.user_wallet_reserved)) _ d1
          h1
          λ reserved d2 e2 h2.
            >>=-then (account (platform_key tenant currency AccountType.payment_gateway_clearing)) _
              d2 h2
              λ clearing d3 e3 h3.
                >>=-then (account (platform_key tenant currency AccountType.operator_revenue)) _ d3
                  h3
                  λ revenue d4 e4 h4.
                    >>=-then (account (platform_key tenant currency AccountType.refund_clearing)) _
                      d4 h4 λ refund d5 e5 h5. looked_up sound e1 e2 e3 e4 e5 h5

pub not_moved :
    (from to k : AccountKey) (n : ℤ) → from ≢ k → to ≢ k → moved from to n k ≡ pos 0 -ℤ pos 0
not_moved from to k n f t = ground (arith, same_account_key_iff from k, same_account_key_iff to k)
