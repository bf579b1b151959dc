-- ===== src/Ledger/Posting.antt =====
-- `LedgerService.post`: replay of a key, or a checked and written transaction.
use ev_charge_platform.Prelude.{
  ℕ, suc, pos, leb_ℤ, Bool, true, false, not, ◌||◌, Option, none, some, ◌∷◌, map, any, nat_eq,
  update, Tx, ok, err, pure, gets, lift, ◌>>=◌, ◌>>◌, ℕ_eq, idempotency_payload_conflict,
  constraint_violation, if◌then◌else◌,
}
use ev_charge_platform.Money.{matches_currency}
use ev_charge_platform.Database.{LedgerEntry, LedgerTransaction, TransactionStatus, Db}
use ev_charge_platform.Ledger.{
  LedgerPosting, LedgerPostingEntry, HashedEntry, HashedRequest, posting, truncate,
  find_transaction, write_audit, publish, assert_balanced, check_accounts,
}

pub record LedgerPostingResult : Type 0 where
  pub replayed : Bool
  pub transaction : LedgerTransaction

unfoldable pub hashed_entry : LedgerPostingEntry → HashedEntry
hashed_entry e = record {
  account_id = e.account_id;
  amount_minor = e.money.amount_minor;
  currency = e.money.currency;
  direction = e.direction;
}

unfoldable pub entry_row : LedgerPostingEntry → LedgerEntry
entry_row e = record {
  account_id = e.account_id;
  amount_minor = e.money.amount_minor;
  currency = e.money.currency;
  direction = e.direction;
}

unfoldable pub hashed_posting : LedgerPosting → Option ℕ → HashedRequest
unfolding hashed_entry
hashed_posting input reversal_of =
    posting input.charging_session_id input.description (map hashed_entry input.entries)
      input.payment_intent_id reversal_of input.transaction_type

-- The table's checks on the new rows: positive amounts in a well-formed currency, and no second
-- reversal of one transaction.
unfoldable pub breaks_entry_check : LedgerPostingEntry → Bool
breaks_entry_check e = leb_ℤ e.money.amount_minor (pos 0) || not (matches_currency e.money.currency)

unfoldable pub reverses : ℕ → LedgerTransaction → Bool
reverses id t = elim t.reversal_of_id [ none ↦ false | some other ↦ nat_eq other id ]

unfoldable pub breaks_constraints : LedgerPosting → Option ℕ → Db → Bool
unfolding breaks_entry_check reverses
breaks_constraints input reversal_of db =
    any breaks_entry_check input.entries
    || elim reversal_of [ none ↦ false | some id ↦ any (reverses id) db.transactions ]

abbrev pub transaction_id_of : LedgerTransaction → ℕ
transaction_id_of t = t.id

abbrev pub set_status : TransactionStatus → LedgerTransaction → LedgerTransaction
set_status status t = record t { status = status }

unfoldable pub pending_row : LedgerPosting → Option ℕ → ℕ → ℕ → LedgerTransaction
unfolding entry_row truncate
pending_row input reversal_of hashed id = record {
  id = id;
  key = record { tenant_id = input.tenant_id; idempotency_key = input.idempotency_key };
  request_hash = hashed;
  status = TransactionStatus.pending;
  transaction_type = input.transaction_type;
  description = truncate 240 input.description;
  charging_session_id = input.charging_session_id;
  payment_intent_id = input.payment_intent_id;
  reversal_of_id = reversal_of;
  external_reference = input.external_reference;
  entries = map entry_row input.entries;
}

-- `ledgerTransaction.create` with its entries.
unfoldable pub create_pending : LedgerPosting → Option ℕ → ℕ → Tx Db LedgerTransaction
create_pending input reversal_of hashed db =
    if breaks_constraints input reversal_of db
    then err constraint_violation
    else (let t = pending_row input reversal_of hashed db.next_id in
        ok (t, record db { transactions = t ∷ db.transactions; next_id = suc db.next_id }))

-- `ledgerTransaction.update` to POSTED, which returns the row.
unfoldable pub mark_posted : LedgerTransaction → Tx Db LedgerTransaction
mark_posted t db = ok (
  set_status TransactionStatus.posted t,
  record db {
    transactions =
        update transaction_id_of t.id (set_status TransactionStatus.posted) db.transactions;
  },
)

module _ (hash : HashedRequest → ℕ) where
  -- The rest of `postInTransaction` once the key is known to be new.
  unfoldable pub post_new : LedgerPosting → Option ℕ → Tx Db LedgerPostingResult
  unfolding mark_posted
  post_new input reversal_of = do
    lift (assert_balanced input.entries)
    checked ← gets (check_accounts input.entries input.tenant_id)
    lift checked
    pending ← create_pending input reversal_of (hash (hashed_posting input reversal_of))
    posted ← mark_posted pending
    write_audit (record {
      action = "LEDGER_TRANSACTION_POSTED";
      entity_type = "LedgerTransaction";
      entity_id = posted.id;
      tenant_id = input.tenant_id;
      user_id = input.user_id;
      correlation_id = none;
    })
    publish (record {
      aggregate_type = "LedgerTransaction";
      aggregate_id = posted.id;
      event_type = "LedgerTransactionPosted";
      tenant_id = input.tenant_id;
    })
    pure (record { replayed = false; transaction = posted })

  -- `postInTransaction`
  unfoldable pub post_in_transaction : LedgerPosting → Option ℕ → Tx Db LedgerPostingResult
  unfolding find_transaction
  post_in_transaction input reversal_of db =
      elim (find_transaction db
        (record { tenant_id = input.tenant_id; idempotency_key = input.idempotency_key })) [
          | none ↦ post_new input reversal_of db
          | some existing ↦
              if nat_eq existing.request_hash (hash (hashed_posting input reversal_of))
              then ok (record { replayed = true; transaction = existing }, db)
              else err idempotency_payload_conflict
        ]

  -- `post` with a client of the caller's.
  unfoldable pub post : LedgerPosting → Tx Db LedgerPostingResult
  unfolding post_in_transaction
  post input = post_in_transaction input none
