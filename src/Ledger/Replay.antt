-- ===== src/Ledger/Replay.antt =====
-- An idempotency key of the ledger stands for one transaction.
use ev_charge_platform.Prelude.{
  ℕ, ◌≡◌, refl, ◌≢◌, ◌⊎◌, inl, inr, true, List, none, some, ◌∷◌, nat_eq_iff, ℕ_eq, find, update,
  arith, ok, err, idempotency_payload_conflict,
}
use ev_charge_platform.Database.{
  LedgerTransaction, TransactionKey, TransactionKey_eq, same_transaction_key_iff, TransactionStatus,
  Db,
}
use ev_charge_platform.Ledger.{LedgerPosting, HashedRequest, transaction_key_of, find_transaction}
use ev_charge_platform.Ledger.Posting.{
  LedgerPostingResult, transaction_id_of, set_status, hashed_posting, post_new, post, pending_row,
}
use ev_charge_platform.Ledger.Writes.{post_new-db, create_pending-cases, new_row}

abbrev key_of : LedgerPosting → TransactionKey
key_of input = record { tenant_id = input.tenant_id; idempotency_key = input.idempotency_key }

found_row :
    (t : LedgerTransaction) (s : TransactionStatus) (ts : List LedgerTransaction)
    → find transaction_key_of t.key (update transaction_id_of t.id (set_status s) (t ∷ ts))
      ≡ some (set_status s t)
found_row t s ts = ground (arith, nat_eq_iff t.id t.id, same_transaction_key_iff t.key t.key)

module _ (hash : HashedRequest → ℕ) (input : LedgerPosting) where
  -- The row under the key of a posting that has succeeded.
  record IsFiled (r : LedgerPostingResult) (db' : Db) : Type 0 where
    found : find_transaction db' (key_of input) ≡ some r.transaction
    hashed : r.transaction.request_hash ≡ hash (hashed_posting input none)

  post_new-transaction :
      (db : Db) {r : LedgerPostingResult} {db' : Db}
      → post_new hash input none db ≡ ok (r, db')
      → r.transaction ≡ set_status TransactionStatus.posted (new_row hash input none db)
  unfolding post_new
  post_new-transaction db h = ground (arith, create_pending-cases hash input none db)

  post_new-IsFiled :
      (db : Db) {r : LedgerPostingResult} {db' : Db}
      → post_new hash input none db ≡ ok (r, db')
      → IsFiled r db'
  unfolding find_transaction pending_row
  post_new-IsFiled db h =
      let (_, _, _, _, _, _, _, rows) = post_new-db hash input none db h in
      let t = post_new-transaction db h in
      record {
        found =
            rw (rows, t)
              (found_row (new_row hash input none db) TransactionStatus.posted db.transactions);
        hashed = rw t refl;
      }

  post-found :
      (db : Db) {r : LedgerPostingResult} {db' : Db}
      → post hash input db ≡ ok (r, db')
      → (post_new hash input none db ≡ ok (r, db'))
        ⊎ ((db' ≡ db)
            × (find_transaction db (key_of input) ≡ some r.transaction)
            × (r.transaction.request_hash ≡ hash (hashed_posting input none)))
  unfolding post
  post-found db h = ground (arith, find_transaction db (key_of input))

  -- A posting that succeeds has either been written now, or a transaction with its key and its hash
  -- was there and nothing has changed.
  post-branches :
      (db : Db) {r : LedgerPostingResult} {db' : Db}
      → post hash input db ≡ ok (r, db')
      → (post_new hash input none db ≡ ok (r, db')) ⊎ IsFiled r db'
  unfolding post find_transaction
  post-branches db h = elim (post-found db h) [
    | inl g ↦ inl g
    | inr (e, found, same) ↦ inr (record { found = rw e found; hashed = same })
  ]

  post-IsFiled :
      (db : Db) {r : LedgerPostingResult} {db' : Db}
      → post hash input db ≡ ok (r, db')
      → IsFiled r db'
  post-IsFiled db h = elim (post-branches db h) [ inl g ↦ post_new-IsFiled db g | inr f ↦ f ]

  -- A posting that succeeds can be sent again: the second time it returns the transaction of the
  -- first as replayed and changes nothing.
  pub post-replay :
      (db : Db) {r : LedgerPostingResult} {db' : Db}
      → post hash input db ≡ ok (r, db')
      → post hash input db' ≡ ok (record r { replayed = true }, db')
  unfolding post
  post-replay db {r} {db'} h = let f = post-IsFiled db h in ground (arith, f.found, f.hashed)

  -- After a posting that succeeds, another request under its key, one with another hash, is refused
  -- as a conflict of payloads.
  pub post-refuses :
      (other : LedgerPosting) (db : Db) {r : LedgerPostingResult} {db' : Db}
      → post hash input db ≡ ok (r, db')
      → key_of other ≡ key_of input
      → hash (hashed_posting other none) ≢ hash (hashed_posting input none)
      → post hash other db' ≡ err idempotency_payload_conflict
  unfolding post
  post-refuses other db {r} {db'} h same differ =
      let f = post-IsFiled db h in
      let no = nat_eq_iff r.transaction.request_hash (hash (hashed_posting other none)) in
      ground (arith, f.found, f.hashed, same, no)
