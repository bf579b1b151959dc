-- ===== src/Wallet/Captures/Postings.antt =====
-- What each of the two postings of a capture does to the ledger.
use Prim.Native.String.{◌++◌}
use ev_charge_platform.Prelude.{
  pure-eq-ok, lift-eq-ok, ℕ, ◌⊎◌, ◌≡◌, refl, sym, inl, inr, ℤ, pos, ◌+ℤ◌, ◌-ℤ◌, ltb_ℤ, int_laws,
  String, Bool, true, false, none, ℕ_eq, Tx, ok, lift, arith, >>=-then, if◌then◌else◌, ◌==◌,
}
use ev_charge_platform.Money.{bigint, no_options, from_minor_units}
use ev_charge_platform.Money.Calculator.{from_minor_units_exact}
use ev_charge_platform.Database.{
  AccountType, AccountKey, AccountKey_eq, TransactionKey_eq, Wallet, WalletReservation, Db,
}
use ev_charge_platform.Ledger.{HashedRequest}
use ev_charge_platform.Ledger.Posting.{post}
use ev_charge_platform.Ledger.Effects.{HasSoundBooks}
use ev_charge_platform.Ledger.Balance.{balance}
use ev_charge_platform.Ledger.Transfers.{moved}
use ev_charge_platform.Ledger.Writes.{post-IsPosted}
use ev_charge_platform.Wallet.{WalletOperation, WalletAccounts}
use ev_charge_platform.Wallet.Reservations.{update_reservation}
use ev_charge_platform.Wallet.Settlement.{
  capture_posting, excess_posting, mark_captured, post_capture, post_excess, when,
}
use ev_charge_platform.Wallet.Invariant.{available_key, reserved_key}
use ev_charge_platform.Wallet.Accounts.{HasAccounts}
use ev_charge_platform.Wallet.Movement.{HasMoved}
use ev_charge_platform.Wallet.Steps.{posted-HasMoved, type_apart}
use ev_charge_platform.Wallet.Holds.{IsUnseen}
use ev_charge_platform.Wallet.Captures.Row.{revenue_key, user_apart, excess_key_apart}

when-cases :
    (b : Bool) (m : Tx Db (Unit {0})) (db : Db) {u : Unit {0}} {db' : Db}
    → when b m db ≡ ok (u, db')
    → ((b ≡ true) × (m db ≡ ok (u, db'))) ⊎ ((b ≡ false) × (db' ≡ db))
when-cases true m db h = inl (refl, h)
when-cases false m db h = inr (refl, ground arith)

no_amount :
    (p q : Bool) (x : ℤ) → x ≡ x +ℤ ((if p then pos 0 else pos 0) -ℤ (if q then pos 0 else pos 0))
no_amount true true x = omega int_laws
no_amount true false x = omega int_laws
no_amount false true x = omega int_laws
no_amount false false x = omega int_laws

-- A transfer of nothing that is not made.
not_posted :
    (from to : AccountKey) (n : ℤ) (db : Db)
    → HasSoundBooks db
    → ltb_ℤ n (pos 0) ≡ false
    → ltb_ℤ (pos 0) n ≡ false
    → HasMoved (moved from to n) db db
not_posted from to n db sound low high =
    let zero_amount : n ≡ pos 0 = ground arith in
    record {
      sound = sound;
      balances = λ k. rw zero_amount (no_amount (to == k) (from == k) (balance k db));
      wallets = refl;
      accounts = refl;
    }

pub captured_not_negative :
    (id : ℕ) (captured released : ℤ) (db : Db) {u : Unit {0}} {db' : Db}
    → update_reservation id (mark_captured captured released) db ≡ ok (u, db')
    → ltb_ℤ captured (pos 0) ≡ false
unfolding update_reservation
captured_not_negative id captured released db h = ground arith

pub rest_not_negative : (n m : ℤ) → ltb_ℤ n m ≡ false → ltb_ℤ (n -ℤ m) (pos 0) ≡ false
unfolding ◌-ℤ◌
rest_not_negative n m h = ground arith

pub HasAccounts-same :
    {wallet tenant : ℕ} {currency : String} {a : WalletAccounts} {db db' : Db}
    → db'.accounts ≡ db.accounts
    → HasAccounts wallet tenant currency a db
    → HasAccounts wallet tenant currency a db'
HasAccounts-same same h = record {
  available = rw same h.available;
  reserved = rw same h.reserved;
  clearing = rw same h.clearing;
  revenue = rw same h.revenue;
  refund = rw same h.refund;
}

module _ (hash : HashedRequest → ℕ) where
  -- The first posting of a capture, and the key that it leaves free.
  pub post_capture-HasMoved :
      (input : WalletOperation) (w : Wallet) (r : WalletReservation) (a : WalletAccounts) (db : Db)
      {u : Unit {0}} {db' : Db}
      → HasSoundBooks db
      → HasAccounts w.id w.owner.tenant_id w.owner.currency a db
      → ltb_ℤ input.money.amount_minor (pos 0) ≡ false
      → IsUnseen input.user.tenant_id ("wallet:capture:" ++ input.idempotency_key) db
      → IsUnseen input.user.tenant_id ("wallet:release-excess:" ++ input.idempotency_key) db
      → post_capture hash input r a db ≡ ok (u, db')
      → HasMoved (moved (reserved_key w) (revenue_key w) input.money.amount_minor) db db'
        × IsUnseen input.user.tenant_id ("wallet:release-excess:" ++ input.idempotency_key) db'
  unfolding post_capture post
  post_capture-HasMoved input w r a db sound has low unseen excess h =
      elim (when-cases (ltb_ℤ (pos 0) input.money.amount_minor) _ db h) [
        | inl (high, g) ↦
            >>=-then (post hash (capture_posting input r input.money a.reserved.id a.revenue.id)) _
              db g
              λ p d e k.
                let done =
                  post-IsPosted hash
                    (capture_posting input r input.money a.reserved.id a.revenue.id) none db unseen
                    e in
                rw ((pure-eq-ok k).1) (
                  posted-HasMoved (reserved_key w) (revenue_key w) sound has.reserved has.revenue
                      (user_apart w.owner.tenant_id w.owner.currency AccountType.operator_revenue
                        w.id AccountType.user_wallet_reserved)
                      refl done,
                  done.unseen _ (excess_key_apart input.user.tenant_id input.idempotency_key)
                      excess,
                )
        | inr (high, same) ↦ rw same (
          not_posted (reserved_key w) (revenue_key w) input.money.amount_minor db sound low high,
          excess,
        )
      ]

  pub post_excess-HasMoved :
      (input : WalletOperation) (w : Wallet) (r : WalletReservation) (n : ℤ) (a : WalletAccounts)
      (db : Db) {u : Unit {0}} {db' : Db}
      → HasSoundBooks db
      → HasAccounts w.id w.owner.tenant_id w.owner.currency a db
      → ltb_ℤ n (pos 0) ≡ false
      → IsUnseen input.user.tenant_id ("wallet:release-excess:" ++ input.idempotency_key) db
      → post_excess hash input r n a db ≡ ok (u, db')
      → HasMoved (moved (reserved_key w) (available_key w) n) db db'
  unfolding post_excess post
  post_excess-HasMoved input w r n a db sound has low unseen h =
      elim (when-cases (ltb_ℤ (pos 0) n) _ db h) [
        | inl (high, g) ↦
            >>=-then (lift (from_minor_units (bigint n) input.money.currency no_options)) _ db g
              λ money d e k.
                >>=-then (post hash (excess_posting input r money a.reserved.id a.available.id)) _ d
                  k
                  λ p d1 e1 k1.
                    let (made, same) =
                      lift-eq-ok (from_minor_units (bigint n) input.money.currency no_options) db
                        e in
                    let done =
                      post-IsPosted hash (excess_posting input r money a.reserved.id a.available.id)
                        none db unseen (rw same at e1) in
                    let m =
                      posted-HasMoved (reserved_key w) (available_key w) sound has.reserved
                        has.available
                        (λ x. type_apart w.owner.tenant_id w.id w.owner.currency (sym x)) refl
                        done in
                    rw ((pure-eq-ok k1).1)
                      (rw (from_minor_units_exact n input.money.currency no_options made) at m)
        | inr (high, same) ↦
            rw same (not_posted (reserved_key w) (available_key w) n db sound low high)
      ]
