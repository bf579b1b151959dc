-- ===== src/Ledger/DoubleEntry.antt =====
-- Double entry: every transaction of the books has as much on the debit as on the credit side, and
-- `post` keeps it so.
use ev_charge_platform.Prelude.{
  ℕ, ◌≡◌, refl, sym, ◌⊎◌, inl, inr, ℤ, pos, ◌+ℤ◌, ◌-ℤ◌, int_laws, eq_ℤ_iff, Option, List, [], ◌∷◌,
  map, ℕ_eq, update, arith, ok, ◌∙◌,
}
use ev_charge_platform.Database.{
  Direction, Direction_eq, LedgerEntry, LedgerTransaction, TransactionStatus, Db,
}
use ev_charge_platform.Ledger.{LedgerPosting, LedgerPostingEntry, HashedRequest, assert_balanced}
use ev_charge_platform.Ledger.Checks.{with_direction, reduce_sum, total_in}
use ev_charge_platform.Ledger.Posting.{
  LedgerPostingResult, transaction_id_of, set_status, entry_row, post_new, post_in_transaction,
  pending_row,
}
use ev_charge_platform.Ledger.Balance.{signed}
use ev_charge_platform.Ledger.Writes.{post_new-db, new_row}

-- What a list of entries adds to the books: credits less debits, whatever the account.
abbrev pub signed_total : List LedgerEntry → ℤ
signed_total [] = pos 0
signed_total (e ∷ es) = signed e.direction e.amount_minor +ℤ signed_total es

-- Every transaction balances.
abbrev pub AllBalanced : List LedgerTransaction → Type 0
AllBalanced [] = Unit {0}
AllBalanced (t ∷ ts) = (signed_total t.entries ≡ pos 0) × AllBalanced ts

Direction-cases : (d : Direction) → (d ≡ Direction.debit) ⊎ (d ≡ Direction.credit)
Direction-cases Direction.debit = inl refl
Direction-cases Direction.credit = inr refl

debit_step : (c d m s : ℤ) → (c -ℤ (d +ℤ m)) +ℤ s ≡ (c -ℤ d) +ℤ ((pos 0 -ℤ m) +ℤ s)
debit_step c d m s = omega int_laws

credit_step : (c d m s : ℤ) → ((c +ℤ m) -ℤ d) +ℤ s ≡ (c -ℤ d) +ℤ (m +ℤ s)
credit_step c d m s = omega int_laws

without_zeros : (s : ℤ) → s ≡ (pos 0 -ℤ pos 0) +ℤ s
without_zeros s = omega int_laws

same_less_same : (a : ℤ) → a -ℤ a ≡ pos 0
same_less_same a = omega int_laws

sides :
    (es : List LedgerPostingEntry) (c d : ℤ)
    → reduce_sum c (with_direction Direction.credit es)
        -ℤ reduce_sum d (with_direction Direction.debit es)
      ≡ (c -ℤ d) +ℤ signed_total (map entry_row es)
unfolding reduce_sum with_direction entry_row
sides [] c d = omega int_laws
sides (e ∷ es) c d = elim (Direction-cases e.direction) [
  | inl h ↦ rw h (
      sides es c (d +ℤ e.money.amount_minor)
      ∙ debit_step c d e.money.amount_minor (signed_total (map entry_row es)))
  | inr h ↦ rw h (
      sides es (c +ℤ e.money.amount_minor) d
      ∙ credit_step c d e.money.amount_minor (signed_total (map entry_row es)))
]

even_totals :
    (es : List LedgerPostingEntry)
    → assert_balanced es ≡ ok tt
    → total_in Direction.debit es ≡ total_in Direction.credit es
unfolding assert_balanced
even_totals [] h = cc
even_totals (e ∷ es) h =
    ground
      (arith, eq_ℤ_iff (total_in Direction.debit (e ∷ es)) (total_in Direction.credit (e ∷ es)))

-- The check of `post` is that of double entry.
assert_balanced-signed_total :
    (es : List LedgerPostingEntry)
    → assert_balanced es ≡ ok tt
    → signed_total (map entry_row es) ≡ pos 0
unfolding assert_balanced total_in
assert_balanced-signed_total es h =
    let even : total_in Direction.debit es ≡ total_in Direction.credit es = even_totals es h in
    let both = sides es (pos 0) (pos 0) in
    without_zeros (signed_total (map entry_row es))
    ∙ sym (rw even at both)
    ∙ same_less_same (total_in Direction.credit es)

AllBalanced-update :
    (id : ℕ) (s : TransactionStatus) (ts : List LedgerTransaction)
    → AllBalanced ts
    → AllBalanced (update transaction_id_of id (set_status s) ts)
AllBalanced-update id s [] h = h
AllBalanced-update id s (t ∷ ts) (h, hs) = (ground (arith, h), AllBalanced-update id s ts hs)

module _ (hash : HashedRequest → ℕ) (input : LedgerPosting) (reversal_of : Option ℕ) where
  new_row-balanced :
      (db : Db)
      → assert_balanced input.entries ≡ ok tt
      → signed_total (new_row hash input reversal_of db).entries ≡ pos 0
  unfolding pending_row
  new_row-balanced db h = assert_balanced-signed_total input.entries h

  post_new-AllBalanced :
      (db : Db) {r : LedgerPostingResult} {db' : Db}
      → AllBalanced db.transactions
      → post_new hash input reversal_of db ≡ ok (r, db')
      → AllBalanced db'.transactions
  post_new-AllBalanced db before h =
      let (_, balanced, _, _, _, _, _, rows) = post_new-db hash input reversal_of db h in
      rw rows (
        AllBalanced-update (new_row hash input reversal_of db).id TransactionStatus.posted
          (new_row hash input reversal_of db ∷ db.transactions)
          (new_row-balanced db balanced, before))

  written_or_not :
      (db : Db) {r : LedgerPostingResult} {db' : Db}
      → post_in_transaction hash input reversal_of db ≡ ok (r, db')
      → (post_new hash input reversal_of db ≡ ok (r, db')) ⊎ (db' ≡ db)
  unfolding post_in_transaction
  written_or_not db h = ground arith

  -- A posting that succeeds, of a reversal or not, keeps the debits and the credits of every
  -- transaction of the ledger equal.
  pub post_in_transaction-AllBalanced :
      (db : Db) {r : LedgerPostingResult} {db' : Db}
      → AllBalanced db.transactions
      → post_in_transaction hash input reversal_of db ≡ ok (r, db')
      → AllBalanced db'.transactions
  post_in_transaction-AllBalanced db before h = elim (written_or_not db h) [
    | inl g ↦ post_new-AllBalanced db before g
    | inr same ↦ rw same before
  ]
