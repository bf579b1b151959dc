-- ===== src/Ledger/Reversal.antt =====
-- `LedgerService.reverse`: a posted transaction is undone by one with every direction turned.
use ev_charge_platform.Prelude.{
  ℕ, String, Bool, true, false, not, ◌&&◌, Option, none, some, List, [], ◌∷◌, find, update, ℕ_eq,
  ◌==◌, Tx, Result, ok, err, pure, lift, throw_if, ◌>>=◌, ◌>>◌, bind_result, conflict, modify,
  if◌then◌else◌,
}
use Prim.Native.String.{◌++◌}
use ev_charge_platform.Money.{bigint, no_options, from_minor_units}
use ev_charge_platform.Database.{
  Direction, LedgerEntry, LedgerTransaction, TransactionType, TransactionStatus,
  TransactionStatus_eq, Db,
}
use ev_charge_platform.Ledger.{LedgerPosting, LedgerPostingEntry, HashedRequest, truncate}
use ev_charge_platform.Ledger.Posting.{
  LedgerPostingResult, transaction_id_of, set_status, post_in_transaction,
}

-- `LedgerRepository.findTransactionById`
unfoldable pub find_by_id : Db → ℕ → ℕ → Option LedgerTransaction
find_by_id db tenant id = elim (find transaction_id_of id db.transactions) [
  | none ↦ none
  | some t ↦ if t.key.tenant_id == tenant then some t else none
]

abbrev pub opposite : Direction → Direction
opposite Direction.debit = Direction.credit
opposite Direction.credit = Direction.debit

unfoldable pub reversed_entry : LedgerEntry → Result LedgerPostingEntry
reversed_entry e =
    bind_result (from_minor_units (bigint e.amount_minor) e.currency no_options) λ money.
      ok (record { account_id = e.account_id; direction = opposite e.direction; money = money })

unfoldable pub reversed_entries : List LedgerEntry → Result (List LedgerPostingEntry)
unfolding reversed_entry
reversed_entries [] = ok []
reversed_entries (e ∷ es) =
    bind_result (reversed_entry e) λ x. bind_result (reversed_entries es) λ xs. ok (x ∷ xs)

unfoldable pub reversal_posting :
    LedgerTransaction → List LedgerPostingEntry → ℕ → String → Option ℕ → LedgerPosting
unfolding truncate
reversal_posting original entries tenant key user = record {
  charging_session_id = none;
  description = truncate 240 ("Reversal: " ++ original.description);
  entries = entries;
  external_reference = some original.id;
  idempotency_key = key;
  payment_intent_id = none;
  tenant_id = tenant;
  transaction_type = TransactionType.reversal;
  user_id = user;
}

abbrev pub is_reversible : TransactionStatus → Bool
is_reversible TransactionStatus.posted = true
is_reversible TransactionStatus.reversed = true
is_reversible _ = false

-- The status of the original changes once, with the first reversal.
unfoldable pub mark_reversed : LedgerTransaction → LedgerPostingResult → Tx Db (Unit {0})
mark_reversed original r = modify λ db.
    if not r.replayed && original.status == TransactionStatus.posted
    then record db {
      transactions =
          update transaction_id_of original.id (set_status TransactionStatus.reversed)
            db.transactions;
    }
    else db

module _ (hash : HashedRequest → ℕ) where
  unfoldable pub reverse_found :
      LedgerTransaction → ℕ → String → Option ℕ → Tx Db LedgerPostingResult
  unfolding mark_reversed
  reverse_found original tenant key user = do
    throw_if (not (is_reversible original.status)) conflict
    entries ← lift (reversed_entries original.entries)
    result ←
        post_in_transaction hash (reversal_posting original entries tenant key user)
          (some original.id)
    mark_reversed original result
    pure result

  unfoldable pub reverse : ℕ → ℕ → String → Option ℕ → Tx Db LedgerPostingResult
  unfolding find_by_id reverse_found
  reverse tenant transaction_id key user db = elim (find_by_id db tenant transaction_id) [
    | none ↦ err conflict
    | some original ↦ reverse_found original tenant key user db
  ]
