-- ===== src/Wallet/Reservations.antt =====
-- Reserving money for a session, and capturing or releasing what is reserved.
use Prim.Native.String.{◌++◌}
use ev_charge_platform.Prelude.{
  ℕ, suc, ◌+◌, ℤ, pos, ◌+ℤ◌, ◌-ℤ◌, ltb_ℤ, leb_ℤ, nat_eq, ℕ_eq, String, Bool, false, not, ◌||◌,
  Option, none, some, ◌∷◌, any, find, update, Tx, Action, ok, err, pure, throw_if, ◌>>=◌, ◌>>◌,
  not_found, constraint_violation, idempotency_payload_conflict, insufficient_wallet_balance,
  if◌then◌else◌,
}
use ev_charge_platform.Money.{matches_currency}
use ev_charge_platform.Database.{
  Wallet, WalletReservation, ReservationKey, ReservationKey_eq, ReservationStatus, TransactionType,
  Db,
}
use ev_charge_platform.Ledger.{LedgerPosting, HashedRequest, reservation}
use ev_charge_platform.Ledger.Posting.{post}
use ev_charge_platform.Ledger.Transfers.{legs}
use ev_charge_platform.Wallet.{
  Interference, serializable_transaction, WalletOperation, ReservationDto, reservation_dto,
  lock_active_wallet, update_wallet, wallet_accounts, record_wallet_event,
}
use ev_charge_platform.Wallet.Operations.{currency_of}

abbrev pub reservation_key_of : WalletReservation → ReservationKey
reservation_key_of r = r.key

abbrev pub reservation_id_of : WalletReservation → ℕ
reservation_id_of r = r.id

abbrev pub same_reference : Option ℕ → Option ℕ → Bool
same_reference (some a) (some b) = nat_eq a b
same_reference _ _ = false

-- The unique columns of a reservation besides its key.
unfoldable pub clashes : WalletReservation → WalletReservation → Bool
clashes new old =
    same_reference new.charging_session_id old.charging_session_id
    || same_reference new.payment_intent_id old.payment_intent_id

-- The reservation's check on its amounts.
unfoldable pub breaks_reservation_check : WalletReservation → Bool
breaks_reservation_check r =
    leb_ℤ r.amount_minor (pos 0)
    || ltb_ℤ r.captured_minor (pos 0)
    || ltb_ℤ r.released_minor (pos 0)
    || ltb_ℤ r.amount_minor (r.captured_minor +ℤ r.released_minor)

unfoldable pub insert_reservation : WalletReservation → Tx Db WalletReservation
unfolding clashes breaks_reservation_check
insert_reservation r db =
    if breaks_reservation_check r
      || not (matches_currency r.currency)
      || any (clashes r) db.reservations
    then err constraint_violation
    else ok (r, record db { reservations = r ∷ db.reservations; next_id = suc db.next_id })

unfoldable pub update_reservation : ℕ → (WalletReservation → WalletReservation) → Tx Db (Unit {0})
unfolding breaks_reservation_check
update_reservation id change db = elim (find reservation_id_of id db.reservations) [
  | none ↦ err not_found
  | some r ↦
      if breaks_reservation_check (change r)
      then err constraint_violation
      else ok (tt, record db { reservations = update reservation_id_of id change db.reservations })
]

-- `lockReservation`
unfoldable pub lock_reservation : ℕ → ℕ → Tx Db WalletReservation
lock_reservation id wallet db = elim (find reservation_id_of id db.reservations) [
  | none ↦ err not_found
  | some r ↦ if nat_eq r.key.wallet_id wallet then ok (r, db) else err not_found
]

abbrev pub reserve_key : WalletOperation → String
reserve_key input = "wallet:reserve:" ++ input.idempotency_key

unfoldable pub hashed_reservation : WalletOperation → HashedRequest
hashed_reservation input =
    reservation input.money.amount_minor input.charging_session_id (currency_of input)
      input.payment_intent_id

abbrev pub new_reservation : WalletOperation → ℕ → ℕ → ℕ → WalletReservation
new_reservation input hashed wallet id = record {
  id = id;
  key = record { wallet_id = wallet; idempotency_key = reserve_key input };
  amount_minor = input.money.amount_minor;
  captured_minor = pos 0;
  released_minor = pos 0;
  currency = currency_of input;
  charging_session_id = input.charging_session_id;
  payment_intent_id = input.payment_intent_id;
  request_hash = hashed;
  status = ReservationStatus.reserved;
  version = 1;
}

abbrev pub reserve_posting : WalletOperation → ℕ → ℕ → LedgerPosting
reserve_posting input available reserved = record {
  charging_session_id = input.charging_session_id;
  description = "Pre-autorizacao para recarga Solis";
  entries = legs available reserved input.money;
  external_reference = none;
  idempotency_key = reserve_key input;
  payment_intent_id = input.payment_intent_id;
  tenant_id = input.user.tenant_id;
  transaction_type = TransactionType.authorization;
  user_id = some input.user.sub;
}

abbrev pub move_to_reserved : ℤ → Wallet → Wallet
move_to_reserved n w = record w {
  available_balance_minor = w.available_balance_minor -ℤ n;
  reserved_balance_minor = w.reserved_balance_minor +ℤ n;
  version = w.version + 1;
}

-- Gives back `released` of the `amount` that was reserved.
abbrev pub settle_reserved : ℤ → ℤ → Wallet → Wallet
settle_reserved released amount w = record w {
  available_balance_minor = w.available_balance_minor +ℤ released;
  reserved_balance_minor = w.reserved_balance_minor -ℤ amount;
  version = w.version + 1;
}

module _ (hash : HashedRequest → ℕ) where
  unfoldable pub reserve_new : WalletOperation → Wallet → Tx Db ReservationDto
  reserve_new input wallet = do
    throw_if (ltb_ℤ wallet.available_balance_minor input.money.amount_minor)
        insufficient_wallet_balance
    accounts ← wallet_accounts wallet.id input.user.tenant_id (currency_of input)
    created ← λ db.
        insert_reservation
          (new_reservation input (hash (hashed_reservation input)) wallet.id db.next_id) db
    posting ← post hash (reserve_posting input accounts.available.id accounts.reserved.id)
    update_wallet wallet.id (move_to_reserved input.money.amount_minor)
    record_wallet_event input.user wallet.id "WALLET_BALANCE_RESERVED" "WalletBalanceReserved"
        input.correlation_id
    pure (reservation_dto created)

  unfoldable pub reserve_locked : WalletOperation → Wallet → Tx Db ReservationDto
  reserve_locked input wallet db =
      elim (find reservation_key_of
        (record { wallet_id = wallet.id; idempotency_key = reserve_key input }) db.reservations) [
          | none ↦ reserve_new input wallet db
          | some existing ↦
              if nat_eq existing.request_hash (hash (hashed_reservation input))
              then ok (reservation_dto existing, db)
              else err idempotency_payload_conflict
        ]

  unfoldable pub reserve_body : WalletOperation → Tx Db ReservationDto
  reserve_body input =
      lock_active_wallet input.user (currency_of input) >>= λ wallet. reserve_locked input wallet

  unfoldable pub reserve : Interference → WalletOperation → Action Db ReservationDto
  reserve aborts input = serializable_transaction aborts (reserve_body input)
