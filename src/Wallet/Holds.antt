-- ===== src/Wallet/Holds.antt =====
-- Reserving, releasing and capturing leave the wallet rows and the ledger in agreement, if the
-- ledger has not seen their keys: none of the three looks whether its posting was a replay.
use ev_charge_platform.Prelude.{
  pure-eq-ok, throw_if-eq-ok, ℕ, suc, ◌≡◌, refl, sym, inr, ℤ, ltb_ℤ, String, none, find, ℕ_eq, ok,
  throw_if, arith, >>=-then, insufficient_wallet_balance,
}
use ev_charge_platform.Database.{
  AccountType, AccountKey_eq, TransactionKey_eq, Wallet, WalletReservation, Db,
}
use ev_charge_platform.Ledger.{transaction_key_of, HashedRequest}
use ev_charge_platform.Ledger.Posting.{LedgerPostingResult, post}
use ev_charge_platform.Ledger.Transfers.{moved}
use ev_charge_platform.Ledger.Writes.{post-IsPosted}
use ev_charge_platform.Wallet.{
  ReservationDto, WalletOperation, WalletAccounts, wallet_accounts, update_wallet,
  record_wallet_event,
}
use ev_charge_platform.Wallet.Operations.{currency_of}
use ev_charge_platform.Wallet.Reservations.{
  insert_reservation, reserve_posting, move_to_reserved, settle_reserved, hashed_reservation,
  new_reservation, reserve_key, reserve_new,
}
use ev_charge_platform.Wallet.Invariant.{Reconciles, available_key, reserved_key}
use ev_charge_platform.Wallet.Movement.{Follows, moved_elsewhere, update_wallet-Reconciles}
use ev_charge_platform.Wallet.Steps.{
  record_wallet_event-Reconciles, IsOpen, posted-HasMoved, moved_to, moved_from, type_apart,
  IsOpen-same,
}

-- The ledger has no transaction of the tenant under the key.
abbrev pub IsUnseen : ℕ → String → Db → Type 0
IsUnseen tenant key db =
    find transaction_key_of (record { tenant_id = tenant; idempotency_key = key }) db.transactions
    ≡ none

insert_reservation-db :
    (r : WalletReservation) (db : Db) {r' : WalletReservation} {db' : Db}
    → insert_reservation r db ≡ ok (r', db')
    → (db'.accounts ≡ db.accounts)
      × (db'.transactions ≡ db.transactions)
      × (db'.wallets ≡ db.wallets)
      × (db'.next_id ≡ suc db.next_id)
unfolding insert_reservation
insert_reservation-db r db h = ground arith

reserve-Follows :
    (w : Wallet) (n : ℤ)
    → Follows (moved (available_key w) (reserved_key w) n) (move_to_reserved n) w
reserve-Follows w n =
    let apart = type_apart w.owner.tenant_id w.id w.owner.currency in
    record {
      keeps = λ v. (refl, refl, refl);
      available =
          sym (moved_from (available_key w) (reserved_key w) n w.available_balance_minor apart);
      reserved = sym (moved_to (available_key w) (reserved_key w) n w.reserved_balance_minor apart);
      elsewhere = λ v d x. (
        moved_elsewhere w.id (available_key w) (reserved_key w) n v.owner.tenant_id v.owner.currency
            v.id AccountType.user_wallet_available (inr refl) (inr refl) d x,
        moved_elsewhere w.id (available_key w) (reserved_key w) n v.owner.tenant_id v.owner.currency
            v.id AccountType.user_wallet_reserved (inr refl) (inr refl) d x,
      );
    }

pub release-Follows :
    (w : Wallet) (n : ℤ)
    → Follows (moved (reserved_key w) (available_key w) n) (settle_reserved n n) w
release-Follows w n =
    let apart = type_apart w.owner.tenant_id w.id w.owner.currency in
    record {
      keeps = λ v. (refl, refl, refl);
      available = sym (
          moved_to (reserved_key w) (available_key w) n w.available_balance_minor
            (λ e. apart (sym e)));
      reserved = sym (
          moved_from (reserved_key w) (available_key w) n w.reserved_balance_minor
            (λ e. apart (sym e)));
      elsewhere = λ v d x. (
        moved_elsewhere w.id (reserved_key w) (available_key w) n v.owner.tenant_id v.owner.currency
            v.id AccountType.user_wallet_available (inr refl) (inr refl) d x,
        moved_elsewhere w.id (reserved_key w) (available_key w) n v.owner.tenant_id v.owner.currency
            v.id AccountType.user_wallet_reserved (inr refl) (inr refl) d x,
      );
    }

module _ (hash : HashedRequest → ℕ) where
  -- What is left of `reserve` once the reservation stands in its table.
  reserved_posting :
      (input : WalletOperation) (w : Wallet) (a : WalletAccounts) {db d1 d2 d3 : Db}
      {p : LedgerPostingResult} {u v : Unit {0}}
      → IsOpen w a db
      → IsUnseen input.user.tenant_id (reserve_key input) db
      → post hash (reserve_posting input a.available.id a.reserved.id) db ≡ ok (p, d1)
      → update_wallet w.id (move_to_reserved input.money.amount_minor) d1 ≡ ok (u, d2)
      → record_wallet_event input.user w.id "WALLET_BALANCE_RESERVED" "WalletBalanceReserved"
          input.correlation_id d2
        ≡ ok (v, d3)
      → Reconciles d3
  unfolding post
  reserved_posting input w a {db} {d1} {d2} o unseen posted updated recorded =
      let done =
        post-IsPosted hash (reserve_posting input a.available.id a.reserved.id) none db unseen
          posted in
      record_wallet_event-Reconciles input.user w.id "WALLET_BALANCE_RESERVED"
        "WalletBalanceReserved" input.correlation_id d2
        (update_wallet-Reconciles o.agrees o.found
          (posted-HasMoved (available_key w) (reserved_key w) o.agrees.books o.accounts.available
            o.accounts.reserved (type_apart w.owner.tenant_id w.id w.owner.currency) refl done)
          (reserve-Follows w input.money.amount_minor) updated)
        recorded

  pub reserve_new-Reconciles :
      (input : WalletOperation) (w : Wallet) (db : Db) {d : ReservationDto} {db' : Db}
      → ((a : WalletAccounts) (d1 : Db)
          → wallet_accounts w.id input.user.tenant_id (currency_of input) db ≡ ok (a, d1)
          → IsOpen w a d1 × (d1.transactions ≡ db.transactions))
      → IsUnseen input.user.tenant_id (reserve_key input) db
      → reserve_new hash input w db ≡ ok (d, db')
      → Reconciles db'
  unfolding reserve_new
  reserve_new-Reconciles input w db open_accounts unseen h =
      >>=-then
        (throw_if (ltb_ℤ w.available_balance_minor input.money.amount_minor)
          insufficient_wallet_balance)
        _ db h
        λ x d0 e0 h0.
          >>=-then (wallet_accounts w.id input.user.tenant_id (currency_of input)) _ d0 h0
            λ a d1 e1 h1.
              >>=-then
                (λ s.
                  insert_reservation
                    (new_reservation input (hash (hashed_reservation input)) w.id s.next_id) s)
                _ d1 h1
                λ created d2 e2 h2.
                  >>=-then (post hash (reserve_posting input a.available.id a.reserved.id)) _ d2 h2
                    λ p d3 e3 h3.
                      >>=-then (update_wallet w.id (move_to_reserved input.money.amount_minor)) _ d3
                        h3
                        λ y d4 e4 h4.
                          >>=-then
                            (record_wallet_event input.user w.id "WALLET_BALANCE_RESERVED"
                              "WalletBalanceReserved" input.correlation_id)
                            _ d4 h4
                            λ z d5 e5 h5.
                              let (_, same) =
                                throw_if-eq-ok
                                  (ltb_ℤ w.available_balance_minor input.money.amount_minor)
                                  insufficient_wallet_balance db e0 in
                              let (o, ts) = open_accounts a d1 (rw same at e1) in
                              let (as', ts', ws, n) =
                                insert_reservation-db
                                  (new_reservation input (hash (hashed_reservation input)) w.id
                                    d1.next_id)
                                  d1 e2 in
                              rw ((pure-eq-ok h5).1) (
                                reserved_posting input w a
                                  (IsOpen-same as' ts' (omega (arith, n)) ws o)
                                  (rw (ts', ts) unseen) e3 e4 e5)
