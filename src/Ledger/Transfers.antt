-- ===== src/Ledger/Transfers.antt =====
-- The wallet's postings have two legs: the same money leaves one account and enters another.
use ev_charge_platform.Prelude.{
  ℕ, ◌<◌, ◌≡◌, ◌≢◌, inl, inr, ℤ, pos, ◌+ℤ◌, ◌-ℤ◌, int_laws, Bool, true, false, none, some, List, [],
  ◌∷◌, nat_eq, ℕ_eq, find, if◌then◌else◌, arith, Option-cases, Bool-cases, ◌==◌,
}
use ev_charge_platform.Money.{Money}
use ev_charge_platform.Database.{
  Direction, AccountKey, AccountKey_eq, same_account_key, same_account_key_iff, LedgerAccount,
  TransactionKey_eq, Db,
}
use ev_charge_platform.Ledger.{account_key_of, LedgerPosting, LedgerPostingEntry}
use ev_charge_platform.Ledger.Posting.{entry_row}
use ev_charge_platform.Ledger.Balance.{net, balance, balance-found, balance-missing}
use ev_charge_platform.Ledger.Effects.{HasSoundBooks}
use ev_charge_platform.Ledger.Writes.{IsPosted}

-- The two legs of a transfer of `money`.
abbrev pub legs : ℕ → ℕ → Money → List LedgerPostingEntry
legs from to money =
    record { account_id = from; direction = Direction.debit; money = money }
    ∷ record { account_id = to; direction = Direction.credit; money = money }
    ∷ []

abbrev pub moved : AccountKey → AccountKey → ℤ → AccountKey → ℤ
moved from to n k = (if to == k then n else pos 0) -ℤ (if from == k then n else pos 0)

legs-moved :
    (p q : Bool) (n x : ℤ)
    → (if p then pos 0 -ℤ n else pos 0) +ℤ ((if q then n else pos 0) +ℤ pos 0) +ℤ x
      ≡ x +ℤ ((if q then n else pos 0) -ℤ (if p then n else pos 0))
legs-moved true true n x = omega int_laws
legs-moved true false n x = omega int_laws
legs-moved false true n x = omega int_laws
legs-moved false false n x = omega int_laws

other_number : (a : LedgerAccount) (n : ℕ) → a.id < n → nat_eq a.id n ≡ false
other_number a n h = ground arith

-- Accounts that were found under two keys have one number just where the keys are one.
same_number :
    (k l : AccountKey) (a b : LedgerAccount) (db : Db)
    → HasSoundBooks db
    → find account_key_of k db.accounts ≡ some a
    → find account_key_of l db.accounts ≡ some b
    → nat_eq a.id b.id ≡ (k == l)
same_number k l a b db sound h g = elim (Bool-cases (same_account_key k l)) [
  | inl same ↦ let e : k ≡ l = (same_account_key_iff k l).0 same in rw same (ground (arith, e))
  | inr other ↦ rw other (ground (arith, sound.apart k l a b h g, same_account_key_iff k l))
]

other_key :
    (k l : AccountKey) (a : LedgerAccount) (db : Db)
    → find account_key_of k db.accounts ≡ some a
    → find account_key_of l db.accounts ≡ none
    → (k == l) ≡ false
other_key k l a db h g = ground (arith, same_account_key_iff k l)

module _ {from to : LedgerAccount} {from_key to_key : AccountKey} {money : Money}
    {input : LedgerPosting} {db db' : Db} (sound : HasSoundBooks db)
    (found_from : find account_key_of from_key db.accounts ≡ some from)
    (found_to : find account_key_of to_key db.accounts ≡ some to) (differ : from_key ≢ to_key)
    (two : input.entries ≡ legs from.id to.id money) (posted : IsPosted input db db') where
  transfer-net :
      (a : ℕ)
      → net a db'.transactions
        ≡ (if nat_eq from.id a then pos 0 -ℤ money.amount_minor else pos 0)
          +ℤ ((if nat_eq to.id a then money.amount_minor else pos 0) +ℤ pos 0)
          +ℤ net a db.transactions
  unfolding entry_row
  transfer-net a = rw (posted.nets a, two)

  found_in :
      (k : AccountKey) (a : LedgerAccount)
      → find account_key_of k db'.accounts ≡ some a
      → find account_key_of k db.accounts ≡ some a
  found_in k a h = rw posted.accounts at h

  pub transfer-HasSoundBooks : HasSoundBooks db'
  transfer-HasSoundBooks = record {
    fresh = λ k a h. omega (arith, posted.next_id, sound.fresh k a (found_in k a h));
    apart = λ k l a b h g e. sound.apart k l a b (found_in k a h) (found_in l b g) e;
    unused = λ n h.
        rw
          (
            transfer-net n,
            legs-moved,
            sound.unused n (omega (arith, posted.next_id)),
            other_number from n
                (omega (arith, posted.next_id, sound.fresh from_key from found_from)),
            other_number to n (omega (arith, posted.next_id, sound.fresh to_key to found_to)),
          )
          (omega int_laws);
  }

  transfer-found :
      (k : AccountKey) (a : LedgerAccount)
      → find account_key_of k db.accounts ≡ some a
      → balance k db' ≡ balance k db +ℤ moved from_key to_key money.amount_minor k
  transfer-found k a h = rw (
    balance-found k a db' (rw posted.accounts h),
    balance-found k a db h,
    transfer-net a.id,
    legs-moved,
    same_number from_key k from a db sound found_from h,
    same_number to_key k to a db sound found_to h,
  )

  transfer-missing :
      (k : AccountKey)
      → find account_key_of k db.accounts ≡ none
      → balance k db' ≡ balance k db +ℤ moved from_key to_key money.amount_minor k
  transfer-missing k h =
      rw
        (
          balance-missing k db' (rw posted.accounts h),
          balance-missing k db h,
          other_key from_key k from db found_from h,
          other_key to_key k to db found_to h,
        )
        (omega int_laws)

  pub transfer-balance :
      (k : AccountKey) → balance k db' ≡ balance k db +ℤ moved from_key to_key money.amount_minor k
  transfer-balance k = elim (Option-cases (find account_key_of k db.accounts)) [
    | inl h ↦ transfer-missing k h
    | inr (a, h) ↦ transfer-found k a h
  ]
