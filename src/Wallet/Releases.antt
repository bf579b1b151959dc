-- ===== src/Wallet/Releases.antt =====
-- Releasing a reservation leaves the wallet rows and the ledger in agreement.
use Prim.Native.String.{◌++◌}
use ev_charge_platform.Prelude.{
  lift-eq-ok, ℕ, ◌⊎◌, ◌≡◌, refl, sym, inl, inr, String, none, some, find, ℕ_eq, ok, lift, arith,
  >>=-then,
}
use ev_charge_platform.Money.{Money, bigint, no_options, from_minor_units}
use ev_charge_platform.Money.Calculator.{from_minor_units_exact}
use ev_charge_platform.Database.{
  ReservationStatus, Wallet, WalletReservation, ReservationKey_eq, Db,
}
use ev_charge_platform.Ledger.{HashedRequest}
use ev_charge_platform.Ledger.Posting.{LedgerPostingResult, post}
use ev_charge_platform.Ledger.Writes.{post-IsPosted}
use ev_charge_platform.Wallet.{
  WalletDto, ReservationDto, WalletOperation, WalletAccounts, lock_active_wallet, wallet_accounts,
  update_wallet, record_wallet_event,
}
use ev_charge_platform.Wallet.Operations.{currency_of, or_default}
use ev_charge_platform.Wallet.Reservations.{
  lock_reservation, update_reservation, settle_reserved, reservation_id_of, reserve_key,
  reserve_new, reserve_locked, reserve_body,
}
use ev_charge_platform.Wallet.Settlement.{
  release_posting, mark_released, release_active, release_locked, release_reserved_body,
}
use ev_charge_platform.Wallet.Invariant.{
  Reconciles, available_key, reserved_key, lock_active_wallet_lem,
}
use ev_charge_platform.Wallet.Movement.{update_wallet-Reconciles}
use ev_charge_platform.Wallet.Steps.{
  record_wallet_event-Reconciles, current_dto-db, IsOpen, opened, opened-transactions,
  posted-HasMoved, HasMoved-same, type_apart,
}
use ev_charge_platform.Wallet.Holds.{IsUnseen, release-Follows, reserve_new-Reconciles}

pub update_reservation-db :
    (id : ℕ) (change : WalletReservation → WalletReservation) (db : Db) {u : Unit {0}} {db' : Db}
    → update_reservation id change db ≡ ok (u, db')
    → (db'.accounts ≡ db.accounts)
      × (db'.transactions ≡ db.transactions)
      × (db'.wallets ≡ db.wallets)
      × (db'.next_id ≡ db.next_id)
unfolding update_reservation
update_reservation-db id change db h = ground arith

pub lock_reservation-db :
    (id wallet : ℕ) (db : Db) {r : WalletReservation} {db' : Db}
    → lock_reservation id wallet db ≡ ok (r, db')
    → (db' ≡ db) × (find reservation_id_of id db.reservations ≡ some r) × (r.key.wallet_id ≡ wallet)
unfolding lock_reservation
lock_reservation-db id wallet db h = ground arith

module _ (hash : HashedRequest → ℕ) where
  -- The branches of `reserve` on a reservation of the same key.
  reserve_locked-cases :
      (input : WalletOperation) (w : Wallet) (db : Db) {d : ReservationDto} {db' : Db}
      → reserve_locked hash input w db ≡ ok (d, db')
      → (reserve_new hash input w db ≡ ok (d, db')) ⊎ (db' ≡ db)
  unfolding reserve_locked
  reserve_locked-cases input w db h = ground arith

  reserve_locked-Reconciles :
      (input : WalletOperation) (w : Wallet) (db : Db) {d : ReservationDto} {db' : Db}
      → Reconciles db
      → lock_active_wallet input.user (currency_of input) db ≡ ok (w, db)
      → IsUnseen input.user.tenant_id (reserve_key input) db
      → reserve_locked hash input w db ≡ ok (d, db')
      → Reconciles db'
  reserve_locked-Reconciles input w db before locked unseen h =
      elim (reserve_locked-cases input w db h) [
        | inl g ↦
            reserve_new-Reconciles hash input w db
              (λ a d1 e1. (
                opened input.user (currency_of input) db before locked e1,
                opened-transactions input.user (currency_of input) db before locked e1,
              ))
              unseen g
        | inr same ↦ rw same before
      ]

  -- A reservation that succeeds, first run or replay, leaves every wallet row in agreement with the
  -- ledger, if the ledger has not seen its key.
  pub reserve_body-Reconciles :
      (input : WalletOperation) (db : Db) {d : ReservationDto} {db' : Db}
      → Reconciles db
      → IsUnseen input.user.tenant_id (reserve_key input) db
      → reserve_body hash input db ≡ ok (d, db')
      → Reconciles db'
  unfolding reserve_body
  reserve_body-Reconciles input db before unseen h =
      >>=-then (lock_active_wallet input.user (currency_of input)) _ db h λ w d0 e0 h0.
        let (same, _, _, _) = lock_active_wallet_lem input.user (currency_of input) db e0 in
        reserve_locked-Reconciles input w db before (rw same at e0) unseen (rw same at h0)

  -- The writes of a release.
  released :
      (input : WalletOperation) (w : Wallet) (a : WalletAccounts) (money : Money)
      (r : WalletReservation) {db d1 d2 d3 d4 : Db} {p : LedgerPostingResult} {t u v : Unit {0}}
      → money.amount_minor ≡ r.amount_minor
      → IsOpen w a db
      → IsUnseen input.user.tenant_id ("wallet:release:" ++ input.idempotency_key) db
      → post hash (release_posting input money a.reserved.id a.available.id) db ≡ ok (p, d1)
      → update_reservation r.id (mark_released r.amount_minor) d1 ≡ ok (t, d2)
      → update_wallet w.id (settle_reserved r.amount_minor r.amount_minor) d2 ≡ ok (u, d3)
      → record_wallet_event input.user w.id "WALLET_RESERVATION_RELEASED"
          "WalletReservationReleased" input.correlation_id d3
        ≡ ok (v, d4)
      → Reconciles d4
  unfolding post
  released input w a money r {db} {d1} {d2} {d3} whole o unseen posted marked updated recorded =
      let done =
        post-IsPosted hash (release_posting input money a.reserved.id a.available.id) none db unseen
          posted in
      let (as', ts, ws, n) = update_reservation-db r.id (mark_released r.amount_minor) d1 marked in
      let apart = type_apart w.owner.tenant_id w.id w.owner.currency in
      let m = HasMoved-same {db = db} {d1 = d1} {d2 = d2} as' ts (omega (arith, n)) ws (
        posted-HasMoved (reserved_key w) (available_key w) o.agrees.books o.accounts.reserved
          o.accounts.available (λ e. apart (sym e)) refl done) in
      record_wallet_event-Reconciles input.user w.id "WALLET_RESERVATION_RELEASED"
        "WalletReservationReleased" input.correlation_id d3
        (update_wallet-Reconciles o.agrees o.found (rw whole at m)
          (release-Follows w r.amount_minor) updated)
        recorded

  release_active-Reconciles :
      (input : WalletOperation) (currency : String) (w : Wallet) (r : WalletReservation) (db : Db)
      {d : WalletDto} {db' : Db}
      → Reconciles db
      → lock_active_wallet input.user currency db ≡ ok (w, db)
      → IsUnseen input.user.tenant_id ("wallet:release:" ++ input.idempotency_key) db
      → release_active hash input currency w r db ≡ ok (d, db')
      → Reconciles db'
  unfolding release_active
  release_active-Reconciles input currency w r db before locked unseen h =
      >>=-then (lift (from_minor_units (bigint r.amount_minor) currency no_options)) _ db h
        λ money d0 e0 h0.
          >>=-then (wallet_accounts w.id input.user.tenant_id currency) _ d0 h0 λ a d1 e1 h1.
            >>=-then (post hash (release_posting input money a.reserved.id a.available.id)) _ d1 h1
              λ p d2 e2 h2.
                >>=-then (update_reservation r.id (mark_released r.amount_minor)) _ d2 h2
                  λ x d3 e3 h3.
                    >>=-then (update_wallet w.id (settle_reserved r.amount_minor r.amount_minor)) _
                      d3 h3
                      λ y d4 e4 h4.
                        >>=-then
                          (record_wallet_event input.user w.id "WALLET_RESERVATION_RELEASED"
                            "WalletReservationReleased" input.correlation_id)
                          _ d4 h4
                          λ z d5 e5 h5.
                            let (made, same) =
                              lift-eq-ok
                                (from_minor_units (bigint r.amount_minor) currency no_options) db
                                e0 in
                            let o = opened input.user currency db before locked (rw same at e1) in
                            let ts =
                              opened-transactions input.user currency db before locked
                                (rw same at e1) in
                            rw (current_dto-db w.id d5 h5) (
                              released input w a money r
                                (from_minor_units_exact r.amount_minor currency no_options made) o
                                (rw ts unseen) e2 e3 e4 e5)

  release_locked-Reconciles :
      (status : ReservationStatus) (input : WalletOperation) (currency : String) (w : Wallet)
      (r : WalletReservation) (db : Db) {d : WalletDto} {db' : Db}
      → Reconciles db
      → lock_active_wallet input.user currency db ≡ ok (w, db)
      → IsUnseen input.user.tenant_id ("wallet:release:" ++ input.idempotency_key) db
      → release_locked hash status input currency w r db ≡ ok (d, db')
      → Reconciles db'
  unfolding release_locked
  release_locked-Reconciles ReservationStatus.reserved input currency w r db before locked unseen
        h =
      release_active-Reconciles input currency w r db before locked unseen h
  release_locked-Reconciles ReservationStatus.released input currency w r db before locked unseen
        h =
      rw (current_dto-db w.id db h) before
  release_locked-Reconciles ReservationStatus.captured input currency w r db before locked unseen
        h =
      cc
  release_locked-Reconciles ReservationStatus.failed input currency w r db before locked unseen h =
      cc

  -- The release of a reservation that succeeds leaves every wallet row in agreement with the
  -- ledger, if the ledger has not seen its key.
  pub release_reserved_body-Reconciles :
      (id : ℕ) (input : WalletOperation) (db : Db) {d : WalletDto} {db' : Db}
      → Reconciles db
      → IsUnseen input.user.tenant_id ("wallet:release:" ++ input.idempotency_key) db
      → release_reserved_body hash id input db ≡ ok (d, db')
      → Reconciles db'
  unfolding release_reserved_body
  release_reserved_body-Reconciles id input db before unseen h =
      >>=-then (lock_active_wallet input.user (or_default input.currency "BRL")) _ db h
        λ w d0 e0 h0. >>=-then (lock_reservation id w.id) _ d0 h0 λ r d1 e1 h1.
          let (same, _, _, _) =
            lock_active_wallet_lem input.user (or_default input.currency "BRL") db e0 in
          let (same', _, _) = lock_reservation-db id w.id d0 e1 in
          release_locked-Reconciles r.status input (or_default input.currency "BRL") w r db before
            (rw same at e0) unseen (rw (same', same) at h1)
