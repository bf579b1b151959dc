-- ===== src/Wallet/Invariant.antt =====
-- The wallet rows agree with the ledger: each balance of a wallet is the balance of its account.
use ev_charge_platform.Prelude.{
  map-eq-some, ℕ, ◌≡◌, refl, sym, ◌∙◌, ◌≢◌, String, some, List, [], ◌∷◌, map, nat_eq, nat_eq_iff,
  ℕ_eq, find, find-map, find-column, update, at_key, arith, ok, Bool-cases, inl, inr,
}
use mathlib.Core.Option
use ev_charge_platform.Database.{
  AuthUser, AccountType, AccountKey, Wallet, WalletOwner, WalletOwner_eq, same_wallet_owner_iff,
  WalletStatus, Db,
}
use ev_charge_platform.Ledger.Balance.{balance}
use ev_charge_platform.Ledger.Effects.{HasSoundBooks, Extends}
use ev_charge_platform.Wallet.{wallet_id_of, find_owned, owner_of, lock_active_wallet, user_key}

abbrev pub available_key : Wallet → AccountKey
available_key w = user_key w.owner.tenant_id w.owner.currency w.id AccountType.user_wallet_available

abbrev pub reserved_key : Wallet → AccountKey
reserved_key w = user_key w.owner.tenant_id w.owner.currency w.id AccountType.user_wallet_reserved

pub record Agrees (db : Db) (w : Wallet) : Type 0 where
  pub available : w.available_balance_minor ≡ balance (available_key w) db
  pub reserved : w.reserved_balance_minor ≡ balance (reserved_key w) db

-- The books are sound, every wallet row agrees with them, and a wallet found by its owner is the
-- one under its number.
pub record Reconciles (db : Db) : Type 0 where
  pub books : HasSoundBooks db
  pub rows : (id : ℕ) (w : Wallet) → find wallet_id_of id db.wallets ≡ some w → Agrees db w
  pub owned :
      (owner : WalletOwner) (w : Wallet)
      → find_owned owner db.wallets ≡ some w
      → find wallet_id_of w.id db.wallets ≡ some w

-- A write that keeps the owner and the deletion mark of a row commutes with `find_owned`.
pub find_owned-map :
    (owner : WalletOwner) (g : Wallet → Wallet) (ws : List Wallet)
    → ((w : Wallet) → ((g w).owner ≡ w.owner) × ((g w).deleted ≡ w.deleted))
    → find_owned owner (map g ws) ≡ Option.map g (find_owned owner ws)
unfolding find_owned
find_owned-map owner g [] h = refl
find_owned-map owner g (w ∷ ws) h = ground (arith, h w, find_owned-map owner g ws h)

find_owned-owner :
    (owner : WalletOwner) (w : Wallet) (ws : List Wallet)
    → find_owned owner ws ≡ some w
    → w.owner ≡ owner
unfolding find_owned
find_owned-owner owner w [] h = cc
find_owned-owner owner w (v ∷ ws) h =
    ground (arith, same_wallet_owner_iff v.owner owner, find_owned-owner owner w ws)

-- Books that only grew by accounts leave the rows in agreement.
pub Reconciles-Extends :
    {db db' : Db} → Reconciles db → HasSoundBooks db' → Extends db db' → Reconciles db'
Reconciles-Extends {db} {db'} r sound e = record {
  books = sound;
  rows = λ id w h.
      let a = r.rows id w (rw e.wallets at h) in
      record {
        available = a.available ∙ sym (e.balances (available_key w));
        reserved = a.reserved ∙ sym (e.balances (reserved_key w));
      };
  owned = λ owner w h. rw e.wallets (r.owned owner w (rw e.wallets at h));
}

pub lock_active_wallet_lem :
    (user : AuthUser) (currency : String) (db : Db) {w : Wallet} {db' : Db}
    → lock_active_wallet user currency db ≡ ok (w, db')
    → (db' ≡ db)
      × (find_owned (owner_of user currency) db.wallets ≡ some w)
      × (w.owner ≡ owner_of user currency)
      × (w.status ≡ WalletStatus.active)
unfolding lock_active_wallet
lock_active_wallet_lem user currency db {w} h =
    ground (arith, find_owned-owner (owner_of user currency) w db.wallets)

module _ {db db' : Db} {w : Wallet} (change : Wallet → Wallet) (before : Reconciles db)
    (keeps : (v : Wallet)
      → ((change v).id ≡ v.id) × ((change v).owner ≡ v.owner) × ((change v).deleted ≡ v.deleted))
    (found : find wallet_id_of w.id db.wallets ≡ some w) (sound : HasSoundBooks db')
    (written : db'.wallets ≡ update wallet_id_of w.id change db.wallets)
    (here : Agrees db' (change w))
    (elsewhere : (v : Wallet) → v.id ≢ w.id → Agrees db v → Agrees db' v) where
  abbrev change_at : Wallet → Wallet
  change_at = at_key wallet_id_of w.id change

  change_at-keeps :
      (v : Wallet) → ((change_at v).owner ≡ v.owner) × ((change_at v).deleted ≡ v.deleted)
  change_at-keeps v = ground (arith, keeps v)

  change_at-id : (v : Wallet) → (change_at v).id ≡ v.id
  change_at-id v = ground (arith, keeps v)

  Agrees-change_at :
      (id : ℕ) (v : Wallet) → find wallet_id_of id db.wallets ≡ some v → Agrees db' (change_at v)
  Agrees-change_at id v h = elim (Bool-cases (nat_eq v.id w.id)) [
    | inl same ↦
        let e : v ≡ w =
          ground (arith, find-column wallet_id_of id v db.wallets h, nat_eq_iff v.id w.id) in
        rw (same, e) here
    | inr other ↦ rw other (elsewhere v (ground arith) (before.rows id v h))
  ]

  found_before :
      (id : ℕ) (v : Wallet)
      → find wallet_id_of id db'.wallets ≡ some v
      → (u : Wallet) × (find wallet_id_of id db.wallets ≡ some u) × (v ≡ change_at u)
  found_before id v h =
      map-eq-some change_at (find wallet_id_of id db.wallets)
        (sym (find-map wallet_id_of id change_at db.wallets change_at-id) ∙ (rw written at h))

  owned_before :
      (owner : WalletOwner) (v : Wallet)
      → find_owned owner db'.wallets ≡ some v
      → (u : Wallet) × (find_owned owner db.wallets ≡ some u) × (v ≡ change_at u)
  owned_before owner v h =
      map-eq-some change_at (find_owned owner db.wallets)
        (sym (find_owned-map owner change_at db.wallets change_at-keeps) ∙ (rw written at h))

  owned_after :
      (u : Wallet)
      → find wallet_id_of u.id db.wallets ≡ some u
      → find wallet_id_of (change_at u).id db'.wallets ≡ some (change_at u)
  owned_after u h =
      rw (written, change_at-id u, find-map wallet_id_of u.id change_at db.wallets change_at-id, h)

  -- A write to the row of one wallet that follows the ledger there, and a ledger that has not
  -- moved for the other wallets.
  pub Reconciles-update : Reconciles db'
  Reconciles-update = record {
    books = sound;
    rows = λ id v h. let (u, g, e) = found_before id v h in rw e (Agrees-change_at id u g);
    owned = λ owner v h.
        let (u, g, e) = owned_before owner v h in rw e (owned_after u (before.owned owner u g));
  }
