-- ===== src/Ledger/Tests.antt =====
-- Runs of the ledger, and each of its theorems at an input that meets its hypotheses.
use ev_charge_platform.Prelude.{
  ℕ, ◌≡◌, ◌≢◌, refl, ℤ, pos, negsuc, ◌-ℤ◌, true, false, none, some, [], ◌∷◌, committed, ok, err,
  arith, idempotency_payload_conflict,
}
use ev_charge_platform.Money.{Money, matches_currency, from_minor_units}
use ev_charge_platform.Database.{
  AccountType, OwnerType, LedgerAccount, AccountStatus, Direction, TransactionType,
  LedgerTransaction, LedgerEntry, TransactionStatus, Db, same_transaction_key,
}
use ev_charge_platform.Ledger.{
  HashedRequest, LedgerPosting, posting, reservation, intent, assert_balanced, check_accounts,
}
use ev_charge_platform.Ledger.Posting.{
  LedgerPostingResult, post, post_in_transaction, post_new, create_pending, pending_row,
  breaks_constraints, hashed_posting,
}
use ev_charge_platform.Ledger.Reversal.{reverse, find_by_id, reversed_entries, reversal_posting}
use ev_charge_platform.Ledger.Balance.{net, entries_net}
use ev_charge_platform.Ledger.Transfers.{legs}
use ev_charge_platform.Ledger.DoubleEntry.{AllBalanced, post_in_transaction-AllBalanced}
use ev_charge_platform.Ledger.Replay.{post-replay, post-refuses}
use ev_charge_platform.Ledger.Undoing.{reverse-undoes}

abbrev reais : ℕ → Money
reais n = record {
  amount_minor = pos n;
  currency = "BRL";
  maximum_amount_minor = pos 100_000_000_000;
}

abbrev platform_account : ℕ → AccountType → LedgerAccount
platform_account id type = record {
  id = id;
  key = record {
    tenant_id = 9;
    owner_type = OwnerType.platform;
    owner_id = 9;
    account_type = type;
    currency = "BRL";
  };
  status = AccountStatus.active;
}

abbrev books : Db
books = record {
  next_id = 3;
  accounts =
      platform_account 1 AccountType.payment_gateway_clearing
      ∷ platform_account 2 AccountType.operator_revenue
      ∷ [];
  transactions = [];
  wallets = [];
  reservations = [];
  audit_log = [];
  outbox = [];
}

abbrev sale : ℕ → LedgerPosting
sale n = record {
  charging_session_id = none;
  description = "sale";
  entries = legs 1 2 (reais n);
  external_reference = none;
  idempotency_key = "sale:1";
  payment_intent_id = none;
  tenant_id = 9;
  transaction_type = TransactionType.capture;
  user_id = none;
}

abbrev natural : ℤ → ℕ
natural (pos n) = n
natural (negsuc n) = 0

-- A toy hash that tells the amounts apart.
abbrev amount_hash : HashedRequest → ℕ
amount_hash (posting session description (e ∷ es) payment reversal type) = natural e.amount_minor
amount_hash (posting session description [] payment reversal type) = 0
amount_hash (reservation amount session currency payment) = natural amount
amount_hash (intent amount session currency provider type) = natural amount

abbrev leg : ℕ → Direction → LedgerEntry
leg account direction = record {
  account_id = account;
  amount_minor = pos 500;
  currency = "BRL";
  direction = direction;
}

abbrev sale_result : LedgerPostingResult
sale_result = record {
  replayed = false;
  transaction = record {
    id = 3;
    key = record { tenant_id = 9; idempotency_key = "sale:1" };
    request_hash = 500;
    status = TransactionStatus.posted;
    transaction_type = TransactionType.capture;
    description = "sale";
    charging_session_id = none;
    payment_intent_id = none;
    reversal_of_id = none;
    external_reference = none;
    entries = leg 1 Direction.debit ∷ leg 2 Direction.credit ∷ [];
  };
}

abbrev sold : Db
sold = (committed books (post amount_hash (sale 500) books)).1

sale_posts : post amount_hash (sale 500) books ≡ ok (sale_result, sold)
unfolding post post_new assert_balanced check_accounts create_pending breaks_constraints
    matches_currency pending_row hashed_posting
sale_posts = refl

abbrev undo_result : LedgerPostingResult
undo_result = record {
  replayed = false;
  transaction = record {
    id = 4;
    key = record { tenant_id = 9; idempotency_key = "undo" };
    request_hash = 500;
    status = TransactionStatus.posted;
    transaction_type = TransactionType.reversal;
    description = "Reversal: sale";
    charging_session_id = none;
    payment_intent_id = none;
    reversal_of_id = some 3;
    external_reference = some 3;
    entries = leg 1 Direction.credit ∷ leg 2 Direction.debit ∷ [];
  };
}

abbrev undone : Db
undone = (committed sold (reverse amount_hash 9 3 "undo" none sold)).1

undo_posts : reverse amount_hash 9 3 "undo" none sold ≡ ok (undo_result, undone)
unfolding post reverse post_new assert_balanced check_accounts create_pending breaks_constraints
    matches_currency pending_row reversed_entries from_minor_units same_transaction_key
    reversal_posting hashed_posting
undo_posts = refl

sale_moved : net 2 sold.transactions ≡ pos 500
unfolding post post_new assert_balanced check_accounts create_pending breaks_constraints
    matches_currency pending_row
sale_moved = refl

sale_written : post_in_transaction amount_hash (sale 500) none books ≡ ok (sale_result, sold)
unfolding post post_new assert_balanced check_accounts create_pending breaks_constraints
    matches_currency pending_row hashed_posting
sale_written = refl

post_in_transaction-AllBalanced_example : AllBalanced sold.transactions
post_in_transaction-AllBalanced_example =
    post_in_transaction-AllBalanced amount_hash (sale 500) none books tt sale_written

post-replay_example :
    post amount_hash (sale 500) sold ≡ ok (record sale_result { replayed = true }, sold)
post-replay_example = post-replay amount_hash (sale 500) books sale_posts

hashes_differ :
    amount_hash (hashed_posting (sale 501) none) ≢ amount_hash (hashed_posting (sale 500) none)
unfolding hashed_posting
hashes_differ h = omega (arith, h)

post-refuses_example : post amount_hash (sale 501) sold ≡ err idempotency_payload_conflict
post-refuses_example =
    post-refuses amount_hash (sale 500) (sale 501) books sale_posts refl hashes_differ

reverse-undoes_example :
    (original : LedgerTransaction) × (find_by_id sold 9 3 ≡ some original)
    × ((a : ℕ)
        → net a undone.transactions ≡ net a sold.transactions -ℤ entries_net a original.entries)
reverse-undoes_example = reverse-undoes amount_hash 9 3 "undo" none sold undo_posts refl
