-- ===== src/Wallet/Captures.antt =====
-- Capturing a reservation leaves the wallet rows and the ledger in agreement: two postings, one
-- write of the row.
mod Row
mod Postings
use Prim.Native.Nat.{◌+◌}
use Prim.Native.String.{◌++◌, count}
use text.Mathlib.TextLemmas.{length-append}
use ev_charge_platform.Prelude.{
  throw_if-eq-ok, ℕ, ◌⊎◌, ◌≡◌, refl, sym, ◌∙◌, ◌≢◌, inl, inr, ℤ, pos, ◌+ℤ◌, ◌-ℤ◌, ltb_ℤ, int_laws,
  String, Bool, true, false, not, none, ℕ_eq, Tx, ok, lift, throw_if, pure, arith, ap, >>=-then,
  capture_exceeds_reservation, idempotency_payload_conflict, eq_ℤ, if◌then◌else◌, ◌==◌,
}
use ev_charge_platform.Money.{bigint, no_options, from_minor_units}
use ev_charge_platform.Money.Calculator.{from_minor_units_exact}
use ev_charge_platform.Database.{
  AccountType, AccountKey, AccountKey_eq, TransactionKey, TransactionKey_eq, ReservationStatus,
  Wallet, WalletReservation, Db,
}
use ev_charge_platform.Ledger.{HashedRequest}
use ev_charge_platform.Ledger.Posting.{post}
use ev_charge_platform.Ledger.Effects.{HasSoundBooks}
use ev_charge_platform.Ledger.Balance.{balance}
use ev_charge_platform.Ledger.Transfers.{moved}
use ev_charge_platform.Ledger.Writes.{post-IsPosted}
use ev_charge_platform.Wallet.{
  WalletDto, WalletOperation, WalletAccounts, lock_active_wallet, wallet_accounts, update_wallet,
  record_wallet_event, platform_key, user_key,
}
use ev_charge_platform.Wallet.Reservations.{lock_reservation, update_reservation, settle_reserved}
use ev_charge_platform.Wallet.Settlement.{
  capture_posting, excess_posting, mark_captured, post_capture, post_excess, capture_active,
  capture_locked, capture_reserved_body, when,
}
use ev_charge_platform.Wallet.Invariant.{
  Reconciles, available_key, reserved_key, lock_active_wallet_lem,
}
use ev_charge_platform.Wallet.Accounts.{HasAccounts}
use ev_charge_platform.Wallet.Movement.{
  HasMoved, HasMoved-then, Follows, moved_elsewhere, update_wallet-Reconciles,
}
use ev_charge_platform.Wallet.Steps.{
  record_wallet_event-Reconciles, current_dto-db, IsOpen, opened, opened-transactions,
  posted-HasMoved, HasMoved-same, moved_to, moved_from, moved_other, type_apart,
}
use ev_charge_platform.Wallet.Holds.{IsUnseen}
use ev_charge_platform.Wallet.Releases.{update_reservation-db, lock_reservation-db}
use ev_charge_platform.Wallet.Captures.Row.{revenue_key, capture_delta, capture-Follows}
use ev_charge_platform.Wallet.Captures.Postings.{
  captured_not_negative, rest_not_negative, HasAccounts-same, post_capture-HasMoved,
  post_excess-HasMoved,
}

module _ (hash : HashedRequest → ℕ) where
  -- The writes of a capture.
  captured :
      (input : WalletOperation) (w : Wallet) (a : WalletAccounts) (r : WalletReservation)
      {db d1 d2 d3 d4 d5 : Db} {u1 u2 u3 u4 u5 : Unit {0}}
      → IsOpen w a db
      → ltb_ℤ r.amount_minor input.money.amount_minor ≡ false
      → IsUnseen input.user.tenant_id ("wallet:capture:" ++ input.idempotency_key) db
      → IsUnseen input.user.tenant_id ("wallet:release-excess:" ++ input.idempotency_key) db
      → post_capture hash input r a db ≡ ok (u1, d1)
      → post_excess hash input r (r.amount_minor -ℤ input.money.amount_minor) a d1 ≡ ok (u2, d2)
      → update_reservation r.id
          (mark_captured input.money.amount_minor (r.amount_minor -ℤ input.money.amount_minor))
          d2
        ≡ ok (u3, d3)
      → update_wallet w.id
          (settle_reserved (r.amount_minor -ℤ input.money.amount_minor) r.amount_minor)
          d3
        ≡ ok (u4, d4)
      → record_wallet_event input.user w.id "WALLET_BALANCE_CAPTURED" "WalletBalanceCaptured"
          input.correlation_id d4
        ≡ ok (u5, d5)
      → Reconciles d5
  captured input w a r {db} {d1} {d2} {d3} {d4} o within unseen excess h1 h2 h3 h4 h5 =
      let n = r.amount_minor -ℤ input.money.amount_minor in
      let (m1, free) =
        post_capture-HasMoved hash input w r a db o.agrees.books o.accounts
          (captured_not_negative r.id input.money.amount_minor n d2 h3) unseen excess h1 in
      let m2 =
        post_excess-HasMoved hash input w r n a d1 m1.sound
          (HasAccounts-same m1.accounts o.accounts)
          (rest_not_negative r.amount_minor input.money.amount_minor within) free h2 in
      let (as', ts, ws, k) =
        update_reservation-db r.id (mark_captured input.money.amount_minor n) d2 h3 in
      let m =
        HasMoved-same {db = db} {d1 = d2} {d2 = d3} as' ts (omega (arith, k)) ws
          (HasMoved-then m1 m2) in
      record_wallet_event-Reconciles input.user w.id "WALLET_BALANCE_CAPTURED"
        "WalletBalanceCaptured" input.correlation_id d4
        (update_wallet-Reconciles o.agrees o.found m
          (capture-Follows w input.money.amount_minor r.amount_minor) h4)
        h5

  capture_active-Reconciles :
      (input : WalletOperation) (w : Wallet) (r : WalletReservation) (db : Db) {d : WalletDto}
      {db' : Db}
      → Reconciles db
      → lock_active_wallet input.user input.money.currency db ≡ ok (w, db)
      → IsUnseen input.user.tenant_id ("wallet:capture:" ++ input.idempotency_key) db
      → IsUnseen input.user.tenant_id ("wallet:release-excess:" ++ input.idempotency_key) db
      → capture_active hash input w r db ≡ ok (d, db')
      → Reconciles db'
  unfolding capture_active
  capture_active-Reconciles input w r db before locked unseen excess h =
      >>=-then
        (throw_if (ltb_ℤ r.amount_minor input.money.amount_minor) capture_exceeds_reservation) _ db
        h
        λ x d0 e0 h0.
          >>=-then (wallet_accounts w.id input.user.tenant_id input.money.currency) _ d0 h0
            λ a d1 e1 h1. >>=-then (post_capture hash input r a) _ d1 h1 λ u2 d2 e2 h2.
              >>=-then (post_excess hash input r (r.amount_minor -ℤ input.money.amount_minor) a) _
                d2 h2
                λ u3 d3 e3 h3.
                  >>=-then
                    (update_reservation r.id (
                      mark_captured input.money.amount_minor
                        (r.amount_minor -ℤ input.money.amount_minor)))
                    _ d3 h3
                    λ u4 d4 e4 h4.
                      >>=-then
                        (update_wallet w.id (
                          settle_reserved (r.amount_minor -ℤ input.money.amount_minor)
                            r.amount_minor))
                        _ d4 h4
                        λ u5 d5 e5 h5.
                          >>=-then
                            (record_wallet_event input.user w.id "WALLET_BALANCE_CAPTURED"
                              "WalletBalanceCaptured" input.correlation_id)
                            _ d5 h5
                            λ u6 d6 e6 h6.
                              let (within, same) =
                                throw_if-eq-ok (ltb_ℤ r.amount_minor input.money.amount_minor)
                                  capture_exceeds_reservation db e0 in
                              let o =
                                opened input.user input.money.currency db before locked
                                  (rw same at e1) in
                              let ts =
                                opened-transactions input.user input.money.currency db before locked
                                  (rw same at e1) in
                              rw (current_dto-db w.id d6 h6) (
                                captured input w a r o within (rw ts unseen) (rw ts excess) e2 e3 e4
                                  e5 e6)

  capture_locked-Reconciles :
      (status : ReservationStatus) (input : WalletOperation) (w : Wallet) (r : WalletReservation)
      (db : Db) {d : WalletDto} {db' : Db}
      → Reconciles db
      → lock_active_wallet input.user input.money.currency db ≡ ok (w, db)
      → IsUnseen input.user.tenant_id ("wallet:capture:" ++ input.idempotency_key) db
      → IsUnseen input.user.tenant_id ("wallet:release-excess:" ++ input.idempotency_key) db
      → capture_locked hash status input w r db ≡ ok (d, db')
      → Reconciles db'
  unfolding capture_locked
  capture_locked-Reconciles ReservationStatus.reserved input w r db before locked unseen excess h =
      capture_active-Reconciles input w r db before locked unseen excess h
  capture_locked-Reconciles ReservationStatus.captured input w r db before locked unseen excess h =
      >>=-then
        (throw_if (not (eq_ℤ r.captured_minor input.money.amount_minor))
          idempotency_payload_conflict)
        _ db h
        λ x d0 e0 h0.
          let (_, same) =
            throw_if-eq-ok (not (eq_ℤ r.captured_minor input.money.amount_minor))
              idempotency_payload_conflict db e0 in
          rw (current_dto-db w.id d0 h0, same) before
  capture_locked-Reconciles ReservationStatus.released input w r db before locked unseen excess h =
      cc
  capture_locked-Reconciles ReservationStatus.failed input w r db before locked unseen excess h = cc

  -- A capture that succeeds leaves every wallet row in agreement with the ledger, if the ledger has
  -- not seen the keys of its two postings.
  pub capture_reserved_body-Reconciles :
      (id : ℕ) (input : WalletOperation) (db : Db) {d : WalletDto} {db' : Db}
      → Reconciles db
      → IsUnseen input.user.tenant_id ("wallet:capture:" ++ input.idempotency_key) db
      → IsUnseen input.user.tenant_id ("wallet:release-excess:" ++ input.idempotency_key) db
      → capture_reserved_body hash id input db ≡ ok (d, db')
      → Reconciles db'
  unfolding capture_reserved_body
  capture_reserved_body-Reconciles id input db before unseen excess h =
      >>=-then (lock_active_wallet input.user input.money.currency) _ db h λ w d0 e0 h0.
        >>=-then (lock_reservation id w.id) _ d0 h0 λ r d1 e1 h1.
          let (same, _, _, _) = lock_active_wallet_lem input.user input.money.currency db e0 in
          let (same', _, _) = lock_reservation-db id w.id d0 e1 in
          capture_locked-Reconciles r.status input w r db before (rw same at e0) unseen excess
            (rw (same', same) at h1)
