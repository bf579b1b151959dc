-- ===== src/Wallet/Reconciliation.antt =====
-- Every method of the wallet that succeeds leaves the wallet rows and the ledger in agreement.
use ev_charge_platform.Prelude.{
  ℕ, ◌≡◌, refl, sym, ◌≢◌, inl, inr, ℤ, String, none, some, find, ℕ_eq, ◌>>◌, ok, ap, >>=-then,
}
use ev_charge_platform.Money.{Money}
use ev_charge_platform.Database.{
  AuthUser, AccountType, AccountKey, AccountKey_eq, LedgerAccount, Wallet, Db,
}
use ev_charge_platform.Ledger.{account_key_of, LedgerPosting, HashedRequest}
use ev_charge_platform.Ledger.Posting.{LedgerPostingResult, post}
use ev_charge_platform.Ledger.Transfers.{legs, moved}
use ev_charge_platform.Ledger.Writes.{post-cases}
use ev_charge_platform.Wallet.{
  WalletDto, WalletOperation, WalletAccounts, lock_active_wallet, wallet_accounts, update_wallet,
  unless, record_wallet_event, user_key, platform_key,
}
use ev_charge_platform.Wallet.Operations.{
  add_available, currency_of, credit_posting, refund_posting, credit_body, refund_body,
}
use ev_charge_platform.Wallet.Invariant.{Reconciles, available_key, reserved_key}
use ev_charge_platform.Wallet.Movement.{Follows, moved_elsewhere, update_wallet-Reconciles}
use ev_charge_platform.Wallet.Steps.{
  record_wallet_event-Reconciles, current_dto-db, IsOpen, opened, posted-HasMoved, moved_to,
  moved_other, type_apart, unless-replayed, unless-written,
}

-- Money that enters the available balance from an account of the platform.
abbrev source_key : Wallet → AccountType → AccountKey
source_key w type = platform_key w.owner.tenant_id w.owner.currency type

platform_apart :
    (t : ℕ) (c : String) (p : AccountType) (o : ℕ) (u : AccountType)
    → platform_key t c p ≢ user_key t c o u
platform_apart t c p o u e = cc (ap (λ (k : AccountKey). k.owner_type) e)

enter-Follows :
    (w : Wallet) (type : AccountType) (n : ℤ)
    → Follows (moved (source_key w type) (available_key w) n) (add_available n) w
enter-Follows w type n = record {
  keeps = λ v. (refl, refl, refl);
  available = sym (
      moved_to (source_key w type) (available_key w) n w.available_balance_minor (
        platform_apart w.owner.tenant_id w.owner.currency type w.id
          AccountType.user_wallet_available));
  reserved = sym (
      moved_other (source_key w type) (available_key w) (reserved_key w) n w.reserved_balance_minor
        (platform_apart w.owner.tenant_id w.owner.currency type w.id
          AccountType.user_wallet_reserved)
        (type_apart w.owner.tenant_id w.id w.owner.currency));
  elsewhere = λ v d x. (
    moved_elsewhere w.id (source_key w type) (available_key w) n v.owner.tenant_id v.owner.currency
        v.id AccountType.user_wallet_available (inl refl) (inr refl) d x,
    moved_elsewhere w.id (source_key w type) (available_key w) n v.owner.tenant_id v.owner.currency
        v.id AccountType.user_wallet_reserved (inl refl) (inr refl) d x,
  );
}

module _ (hash : HashedRequest → ℕ) where
  -- The end of `credit` and of `refund`, from the posting on.
  entered :
      (w : Wallet) (a : WalletAccounts) (type : AccountType) (source : LedgerAccount)
      (input : LedgerPosting) (money : Money) (user : AuthUser) (action event : String)
      (correlation : ℕ) {db d2 d3 : Db} {p : LedgerPostingResult} {u : Unit {0}}
      → IsOpen w a db
      → find account_key_of (source_key w type) db.accounts ≡ some source
      → input.entries ≡ legs source.id a.available.id money
      → post hash input db ≡ ok (p, d2)
      → unless p.replayed
          (update_wallet w.id (add_available money.amount_minor)
            >> record_wallet_event user w.id action event correlation)
          d2
        ≡ ok (u, d3)
      → Reconciles d3
  unfolding post
  entered w a type source input money user action event correlation {db} {d2} {d3} {p} o found two
        posted h =
      let follow = update_wallet w.id (add_available money.amount_minor) in
      let event_step = record_wallet_event user w.id action event correlation in
      elim (post-cases hash input none db posted) [
        | inl (replayed, same) ↦
            rw (unless-replayed p.replayed (follow >> event_step) d2 replayed h, same) o.agrees
        | inr (written, done) ↦
            >>=-then follow _ d2 (unless-written p.replayed (follow >> event_step) d2 written h)
              λ x d e r.
                record_wallet_event-Reconciles user w.id action event correlation d
                  (update_wallet-Reconciles o.agrees o.found
                    (posted-HasMoved (source_key w type) (available_key w) o.agrees.books found
                      o.accounts.available
                      (platform_apart w.owner.tenant_id w.owner.currency type w.id
                        AccountType.user_wallet_available)
                      two done)
                    (enter-Follows w type money.amount_minor) e)
                  r
      ]

  -- A credit that succeeds, first run or replay, leaves every wallet row in agreement with the
  -- ledger.
  pub credit_body-Reconciles :
      (input : WalletOperation) (db : Db) {d : WalletDto} {db' : Db}
      → Reconciles db
      → credit_body hash input db ≡ ok (d, db')
      → Reconciles db'
  unfolding credit_body
  credit_body-Reconciles input db before h =
      >>=-then (lock_active_wallet input.user (currency_of input)) _ db h λ w d0 e0 h0.
        >>=-then (wallet_accounts w.id input.user.tenant_id (currency_of input)) _ d0 h0
          λ a d1 e1 h1.
            >>=-then (post hash (credit_posting input a.clearing.id a.available.id)) _ d1 h1
              λ p d2 e2 h2. >>=-then (unless p.replayed _) _ d2 h2 λ u d3 e3 h3.
                let o = opened input.user (currency_of input) db before e0 e1 in
                rw (current_dto-db w.id d3 h3) (
                  entered w a AccountType.payment_gateway_clearing a.clearing
                    (credit_posting input a.clearing.id a.available.id) input.money input.user
                    "WALLET_CREDITED" "WalletCredited" input.correlation_id o o.accounts.clearing
                    refl e2 e3)

  -- The same of a refund to the wallet.
  pub refund_body-Reconciles :
      (input : WalletOperation) (db : Db) {d : WalletDto} {db' : Db}
      → Reconciles db
      → refund_body hash input db ≡ ok (d, db')
      → Reconciles db'
  unfolding refund_body
  refund_body-Reconciles input db before h =
      >>=-then (lock_active_wallet input.user input.money.currency) _ db h λ w d0 e0 h0.
        >>=-then (wallet_accounts w.id input.user.tenant_id input.money.currency) _ d0 h0
          λ a d1 e1 h1.
            >>=-then (post hash (refund_posting input a.refund.id a.available.id)) _ d1 h1
              λ p d2 e2 h2. >>=-then (unless p.replayed _) _ d2 h2 λ u d3 e3 h3.
                let o = opened input.user input.money.currency db before e0 e1 in
                rw (current_dto-db w.id d3 h3) (
                  entered w a AccountType.refund_clearing a.refund
                    (refund_posting input a.refund.id a.available.id) input.money input.user
                    "WALLET_REFUNDED" "WalletRefunded" input.correlation_id o o.accounts.refund refl
                    e2 e3)
