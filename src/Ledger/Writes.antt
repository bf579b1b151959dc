-- ===== src/Ledger/Writes.antt =====
-- What `post` writes, and when it writes nothing.
use ev_charge_platform.Prelude.{
  ℕ, suc, ◌≡◌, ◌∙◌, ◌≢◌, ◌⊎◌, inl, inr, ◌+ℤ◌, true, false, Option, none, some, ◌∷◌, map, nat_eq,
  ℕ_eq, find, find-map, at_key, update, ap, if◌then◌else◌, arith, ok, Bool-cases, err,
  constraint_violation, idempotency_payload_conflict,
}
use mathlib.Core.Option
use ev_charge_platform.Database.{
  AccountKey_eq, LedgerTransaction, TransactionKey, TransactionKey_eq, same_transaction_key,
  same_transaction_key_iff, TransactionStatus, Db,
}
use ev_charge_platform.Ledger.{
  transaction_key_of, LedgerPosting, HashedRequest, assert_balanced, check_accounts,
}
use ev_charge_platform.Ledger.Posting.{
  LedgerPostingResult, transaction_id_of, set_status, entry_row, create_pending, pending_row,
  hashed_posting, breaks_constraints, post_new, post_in_transaction,
}
use ev_charge_platform.Ledger.Balance.{net, entries_net, net-set_status}

-- What a posting that was written has changed: one more transaction, with the entries asked for.
pub record IsPosted (input : LedgerPosting) (db db' : Db) : Type 0 where
  pub balanced : assert_balanced input.entries ≡ ok tt
  pub accounts_ok : check_accounts input.entries input.tenant_id db ≡ ok tt
  pub accounts : db'.accounts ≡ db.accounts
  pub wallets : db'.wallets ≡ db.wallets
  pub reservations : db'.reservations ≡ db.reservations
  pub next_id : db'.next_id ≡ suc db.next_id
  pub unseen :
      (k : TransactionKey)
      → k ≢ record { tenant_id = input.tenant_id; idempotency_key = input.idempotency_key }
      → find transaction_key_of k db.transactions ≡ none
      → find transaction_key_of k db'.transactions ≡ none
  pub nets :
      (a : ℕ)
      → net a db'.transactions
        ≡ entries_net a (map entry_row input.entries) +ℤ net a db.transactions

other_transaction : (k l : TransactionKey) → k ≢ l → same_transaction_key l k ≡ false
other_transaction k l d = ground (arith, same_transaction_key_iff l k)

module _ (hash : HashedRequest → ℕ) (input : LedgerPosting) (reversal_of : Option ℕ) (db : Db) where
  abbrev pub new_row : LedgerTransaction
  new_row = pending_row input reversal_of (hash (hashed_posting input reversal_of)) db.next_id

  abbrev with_row : Db
  with_row = record db { transactions = new_row ∷ db.transactions; next_id = suc db.next_id }

  pub create_pending-cases :
      (create_pending input reversal_of (hash (hashed_posting input reversal_of)) db
        ≡ err constraint_violation)
      ⊎ (create_pending input reversal_of (hash (hashed_posting input reversal_of)) db
          ≡ ok (new_row, with_row))
  unfolding create_pending
  create_pending-cases = elim (Bool-cases (breaks_constraints input reversal_of db)) [
    | inl bad ↦ inl (rw bad)
    | inr good ↦ inr (rw good)
  ]

  pub post_new-db :
      {r : LedgerPostingResult} {db' : Db}
      → post_new hash input reversal_of db ≡ ok (r, db')
      → (r.replayed ≡ false)
        × (assert_balanced input.entries ≡ ok tt)
        × (check_accounts input.entries input.tenant_id db ≡ ok tt)
        × (db'.accounts ≡ db.accounts)
        × (db'.wallets ≡ db.wallets)
        × (db'.reservations ≡ db.reservations)
        × (db'.next_id ≡ suc db.next_id)
        × (db'.transactions
            ≡ update transaction_id_of new_row.id
                (set_status TransactionStatus.posted)
                (new_row ∷ db.transactions))
  unfolding post_new
  post_new-db h = ground (arith, create_pending-cases)

  nets_of-new_row :
      (a : ℕ)
      → net a (
          update transaction_id_of new_row.id
            (set_status TransactionStatus.posted)
            (new_row ∷ db.transactions))
        ≡ entries_net a (map entry_row input.entries) +ℤ net a db.transactions
  unfolding pending_row
  nets_of-new_row a =
      net-set_status a new_row.id TransactionStatus.posted (new_row ∷ db.transactions)

  unseen_before :
      (k : TransactionKey)
      → k ≢ record { tenant_id = input.tenant_id; idempotency_key = input.idempotency_key }
      → find transaction_key_of k db.transactions ≡ none
      → find transaction_key_of k (new_row ∷ db.transactions) ≡ none
  unfolding pending_row
  unseen_before k d h = rw (other_transaction k (new_row.key) d) h

  unseen_after :
      (k : TransactionKey)
      → k ≢ record { tenant_id = input.tenant_id; idempotency_key = input.idempotency_key }
      → find transaction_key_of k db.transactions ≡ none
      → find transaction_key_of k (
          update transaction_id_of new_row.id
            (set_status TransactionStatus.posted)
            (new_row ∷ db.transactions))
        ≡ none
  unfolding pending_row
  unseen_after k d h =
      find-map transaction_key_of k
        (at_key transaction_id_of new_row.id (set_status TransactionStatus.posted))
        (new_row ∷ db.transactions) (λ t. ground arith)
      ∙ ap (Option.map (at_key transaction_id_of new_row.id (set_status TransactionStatus.posted)))
          (unseen_before k d h)

  pub post_new-IsPosted :
      {r : LedgerPostingResult} {db' : Db}
      → post_new hash input reversal_of db ≡ ok (r, db')
      → (r.replayed ≡ false) × IsPosted input db db'
  post_new-IsPosted h =
      let (written, balanced, accounts_ok, accounts, wallets, reservations, next, rows) =
        post_new-db h in
      (
        written,
        record {
          balanced = balanced;
          accounts_ok = accounts_ok;
          accounts = accounts;
          wallets = wallets;
          reservations = reservations;
          next_id = next;
          unseen = λ k d h. rw rows (unseen_after k d h);
          nets = λ a. rw rows (nets_of-new_row a);
        },
      )

  replay-cases :
      (found : Option LedgerTransaction) {r : LedgerPostingResult} {db' : Db}
      → elim found [
        | none ↦ post_new hash input reversal_of db
        | some existing ↦
            if nat_eq existing.request_hash (hash (hashed_posting input reversal_of))
            then ok (record { replayed = true; transaction = existing }, db)
            else err idempotency_payload_conflict
      ]
        ≡ ok (r, db')
      → ((r.replayed ≡ true) × (db' ≡ db)) ⊎ ((r.replayed ≡ false) × IsPosted input db db')
  replay-cases none h = inr (post_new-IsPosted h)
  replay-cases (some existing) h = inl (ground arith)

  fresh-IsPosted :
      (found : Option LedgerTransaction) {r : LedgerPostingResult} {db' : Db}
      → found ≡ none
      → elim found [
        | none ↦ post_new hash input reversal_of db
        | some existing ↦
            if nat_eq existing.request_hash (hash (hashed_posting input reversal_of))
            then ok (record { replayed = true; transaction = existing }, db)
            else err idempotency_payload_conflict
      ]
        ≡ ok (r, db')
      → IsPosted input db db'
  fresh-IsPosted none e h = (post_new-IsPosted h).1
  fresh-IsPosted (some existing) e h = cc

  -- Under a key that the ledger has not seen, a posting that succeeds is written.
  pub post-IsPosted :
      {r : LedgerPostingResult} {db' : Db}
      → find transaction_key_of
          (record { tenant_id = input.tenant_id; idempotency_key = input.idempotency_key })
          db.transactions
        ≡ none
      → post_in_transaction hash input reversal_of db ≡ ok (r, db')
      → IsPosted input db db'
  unfolding post_in_transaction
  post-IsPosted e h = fresh-IsPosted _ e h

  -- A posting that succeeds either replays its key and changes nothing, or has been written.
  pub post-cases :
      {r : LedgerPostingResult} {db' : Db}
      → post_in_transaction hash input reversal_of db ≡ ok (r, db')
      → ((r.replayed ≡ true) × (db' ≡ db)) ⊎ ((r.replayed ≡ false) × IsPosted input db db')
  unfolding post_in_transaction
  post-cases h = replay-cases _ h
