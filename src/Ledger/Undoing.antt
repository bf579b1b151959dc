-- ===== src/Ledger/Undoing.antt =====
-- A reversal takes back, account by account, what the reversed transaction has moved.
use ev_charge_platform.Prelude.{
  pure-eq-ok, lift-eq-ok, throw_if-eq-ok, ℕ, ◌≡◌, refl, ap, ◌==◌, ◌&&◌, inl, inr, ℤ, pos, ◌+ℤ◌,
  ◌-ℤ◌, int_laws, String, Bool, true, false, not, Option, some, List, [], ◌∷◌, map, nat_eq, ℕ_eq,
  update, arith, ok, ◌∙◌, if◌then◌else◌, Result, bind_result, bind_result-eq-ok, >>=-then, throw_if,
  lift, conflict,
}
use ev_charge_platform.Money.{no_options}
use ev_charge_platform.Money.Calculator.{from_minor_units_exact}
use ev_charge_platform.Database.{
  Direction, LedgerEntry, LedgerTransaction, TransactionStatus, TransactionStatus_eq, Db,
}
use ev_charge_platform.Ledger.{LedgerPostingEntry, HashedRequest}
use ev_charge_platform.Ledger.Posting.{
  LedgerPostingResult, transaction_id_of, set_status, entry_row, post_in_transaction,
}
use ev_charge_platform.Ledger.Reversal.{
  find_by_id, opposite, reversed_entry, reversed_entries, reversal_posting, is_reversible,
  mark_reversed, reverse_found, reverse,
}
use ev_charge_platform.Ledger.Balance.{signed, entries_net, net, net-set_status}
use ev_charge_platform.Ledger.Writes.{post-cases}

signed-opposite : (d : Direction) (n : ℤ) → signed (opposite d) n ≡ pos 0 -ℤ signed d n
signed-opposite Direction.debit n = omega int_laws
signed-opposite Direction.credit n = refl

reversed_entry_lem :
    (e : LedgerEntry) {x : LedgerPostingEntry}
    → reversed_entry e ≡ ok x
    → (x.account_id ≡ e.account_id)
      × (x.direction ≡ opposite e.direction)
      × (x.money.amount_minor ≡ e.amount_minor)
unfolding reversed_entry
reversed_entry_lem e h =
    let (money, made, rest) = bind_result-eq-ok _ _ h in
    let exact = from_minor_units_exact e.amount_minor e.currency no_options made in
    ground (arith, exact)

one_less :
    (b : Bool) (n s : ℤ)
    → (if b then pos 0 -ℤ n else pos 0) +ℤ (pos 0 -ℤ s) ≡ pos 0 -ℤ ((if b then n else pos 0) +ℤ s)
one_less true n s = omega int_laws
one_less false n s = omega int_laws

ok-eq : {A : Type 0} {x y : A} (r : Result A) → r ≡ ok x → r ≡ ok y → y ≡ x
ok-eq r h g = ground arith

taken_back :
    (a : ℕ) (e : LedgerEntry) (es : List LedgerEntry) (x : LedgerPostingEntry)
    (ys : List LedgerPostingEntry)
    → (x.account_id ≡ e.account_id)
      × (x.direction ≡ opposite e.direction)
      × (x.money.amount_minor ≡ e.amount_minor)
    → entries_net a (map entry_row ys) ≡ pos 0 -ℤ entries_net a es
    → entries_net a (map entry_row (x ∷ ys)) ≡ pos 0 -ℤ entries_net a (e ∷ es)
unfolding entry_row
taken_back a e es x ys (id, side, amount) rest =
    rw (id, side, amount, signed-opposite e.direction e.amount_minor, rest)
      (one_less (nat_eq e.account_id a) (signed e.direction e.amount_minor) (entries_net a es))

reversed_entries-net :
    (a : ℕ) (es : List LedgerEntry) (xs : List LedgerPostingEntry)
    → reversed_entries es ≡ ok xs
    → entries_net a (map entry_row xs) ≡ pos 0 -ℤ entries_net a es
unfolding reversed_entries
reversed_entries-net a [] xs h = rw (ok-eq (ok []) refl h) (omega int_laws)
reversed_entries-net a (e ∷ es) xs h =
    let (x, one, rest) =
      bind_result-eq-ok (reversed_entry e)
        (λ x. bind_result (reversed_entries es) (λ ys. ok (x ∷ ys))) h in
    let (ys, more, last) = bind_result-eq-ok (reversed_entries es) (λ ys. ok (x ∷ ys)) rest in
    rw (ok-eq (ok (x ∷ ys)) refl last)
      (taken_back a e es x ys (reversed_entry_lem e one) (reversed_entries-net a es ys more))

marked-net :
    (b : Bool) (a : ℕ) (t : LedgerTransaction) (db : Db)
    → net a
        (if b
          then record db {
            transactions =
                update transaction_id_of t.id
                  (set_status TransactionStatus.reversed)
                  db.transactions;
          }
          else db).transactions
      ≡ net a db.transactions
marked-net true a t db = net-set_status a t.id TransactionStatus.reversed db.transactions
marked-net false a t db = refl

mark_reversed-net :
    (a : ℕ) (t : LedgerTransaction) (r : LedgerPostingResult) (db : Db) {u : Unit {0}} {db' : Db}
    → mark_reversed t r db ≡ ok (u, db')
    → net a db'.transactions ≡ net a db.transactions
unfolding mark_reversed
mark_reversed-net a t r db h =
    rw (pure-eq-ok {x = tt} h).1
      (marked-net (not r.replayed && t.status == TransactionStatus.posted) a t db)

minus_first : (p n : ℤ) → (pos 0 -ℤ p) +ℤ n ≡ n -ℤ p
minus_first p n = omega int_laws

module _ (hash : HashedRequest → ℕ) (tenant id : ℕ) (key : String) (user : Option ℕ) (db : Db) where
  listed :
      (original : LedgerTransaction) {u : Unit {0}} {xs : List LedgerPostingEntry} {d0 d1 : Db}
      → throw_if (not (is_reversible original.status)) conflict db ≡ ok (u, d0)
      → lift (reversed_entries original.entries) d0 ≡ ok (xs, d1)
      → (reversed_entries original.entries ≡ ok xs) × (d1 ≡ db)
  listed original h g =
      let (_, same) = throw_if-eq-ok (not (is_reversible original.status)) conflict db h in
      let (made, same') = lift-eq-ok (reversed_entries original.entries) _ g in (made, same' ∙ same)

  posted-net :
      (original : LedgerTransaction) (xs : List LedgerPostingEntry) (d0 : Db) {d1 : Db}
      (p : LedgerPostingResult)
      → post_in_transaction hash
          (reversal_posting original xs tenant key user)
          (some original.id)
          d0
        ≡ ok (p, d1)
      → p.replayed ≡ false
      → (a : ℕ) → net a d1.transactions ≡ entries_net a (map entry_row xs) +ℤ net a d0.transactions
  unfolding reversal_posting
  posted-net original xs d0 p h fresh a =
      elim (post-cases hash (reversal_posting original xs tenant key user) (some original.id) d0
        h) [ inl (replayed, same) ↦ cc (fresh, replayed) | inr (written, done) ↦ done.nets a ]

  reverse_found-net :
      (original : LedgerTransaction) (a : ℕ) {r : LedgerPostingResult} {db' : Db}
      → reverse_found hash original tenant key user db ≡ ok (r, db')
      → r.replayed ≡ false
      → net a db'.transactions ≡ net a db.transactions -ℤ entries_net a original.entries
  unfolding reverse_found
  reverse_found-net original a h fresh =
      >>=-then (throw_if (not (is_reversible original.status)) conflict) _ db h λ x d0 e0 h0.
        >>=-then (lift (reversed_entries original.entries)) _ d0 h0 λ entries d1 e1 h1.
          >>=-then
            (post_in_transaction hash (reversal_posting original entries tenant key user)
              (some original.id))
            _ d1 h1
            λ p d2 e2 h2. >>=-then (mark_reversed original p) _ d2 h2 λ y d3 e3 h3.
              let (made, same) = listed original e0 e1 in
              let (result, last) = pure-eq-ok {x = p} {s = d3} h3 in
              let done =
                posted-net original entries d1 p e2
                  (ap (λ (q : LedgerPostingResult). q.replayed) result ∙ fresh) a in
              rw
                (
                  last,
                  mark_reversed-net a original p d2 e3,
                  done,
                  same,
                  reversed_entries-net a original.entries entries made,
                )
                (minus_first (entries_net a original.entries) (net a db.transactions))

  find_by_id-found :
      {r : LedgerPostingResult} {db' : Db}
      → reverse hash tenant id key user db ≡ ok (r, db')
      → (original : LedgerTransaction) × (find_by_id db tenant id ≡ some original)
        × (reverse_found hash original tenant key user db ≡ ok (r, db'))
  unfolding reverse
  find_by_id-found h = ground (arith, find_by_id db tenant id)

  -- A reversal that succeeds and is not a replay takes back, on every account, exactly what the
  -- reversed transaction has moved there.
  pub reverse-undoes :
      {r : LedgerPostingResult} {db' : Db}
      → reverse hash tenant id key user db ≡ ok (r, db')
      → r.replayed ≡ false
      → (original : LedgerTransaction) × (find_by_id db tenant id ≡ some original)
        × ((a : ℕ)
            → net a db'.transactions ≡ net a db.transactions -ℤ entries_net a original.entries)
  reverse-undoes h fresh =
      let (original, found, g) = find_by_id-found h in
      (original, found, λ a. reverse_found-net original a g fresh)
