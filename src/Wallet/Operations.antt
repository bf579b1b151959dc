-- ===== src/Wallet/Operations.antt =====
-- Making, crediting, refunding and blocking a wallet.
use Prim.Native.String.{◌++◌}
use ev_charge_platform.Prelude.{
  ℕ, suc, ◌+◌, ℤ, pos, ◌+ℤ◌, ℕ_eq, String, Bool, true, false, not, Option, none, some, ◌∷◌, find,
  ◌==◌, Tx, Action, ok, err, pure, throw_if, ◌>>=◌, ◌>>◌, conflict, not_found, constraint_violation,
  if◌then◌else◌,
}
use ev_charge_platform.Money.{matches_currency}
use ev_charge_platform.Database.{
  AuthUser, Wallet, WalletOwner, WalletOwner_eq, WalletStatus, WalletStatus_eq, TransactionType, Db,
}
use ev_charge_platform.Ledger.{LedgerPosting, HashedRequest, write_audit, publish}
use ev_charge_platform.Ledger.Posting.{post}
use ev_charge_platform.Ledger.Transfers.{legs}
use ev_charge_platform.Wallet.{
  Interference, serializable_transaction, WalletOperation, WalletDto, to_dto, find_owned, owner_of,
  lock_active_wallet, update_wallet, unless, current_dto, wallet_accounts, record_wallet_event,
}

abbrev pub or_default {ℓ} : {A : Type ℓ} → Option A → A → A
or_default none d = d
or_default (some a) d = a

abbrev pub owner_column : Wallet → WalletOwner
owner_column w = w.owner

abbrev new_wallet : ℕ → WalletOwner → Wallet
new_wallet id owner = record {
  id = id;
  owner = owner;
  available_balance_minor = pos 0;
  reserved_balance_minor = pos 0;
  status = WalletStatus.active;
  deleted = false;
  version = 1;
}

-- `wallet.create`; the table wants a currency of three capital letters.
unfoldable pub insert_wallet : WalletOwner → Tx Db Wallet
insert_wallet owner db =
    if not (matches_currency owner.currency)
    then err constraint_violation
    else (let w = new_wallet db.next_id owner in
        ok (w, record db { wallets = w ∷ db.wallets; next_id = suc db.next_id }))

unfoldable pub create_new_wallet : AuthUser → String → Tx Db WalletDto
unfolding insert_wallet to_dto
create_new_wallet user currency = do
  wallet ← insert_wallet (owner_of user currency)
  accounts ← wallet_accounts wallet.id user.tenant_id currency
  write_audit (record {
    action = "WALLET_CREATED";
    entity_type = "Wallet";
    entity_id = wallet.id;
    tenant_id = user.tenant_id;
    user_id = some user.sub;
    correlation_id = none;
  })
  publish (record {
    aggregate_type = "Wallet";
    aggregate_id = wallet.id;
    event_type = "WalletCreated";
    tenant_id = user.tenant_id;
  })
  pure (to_dto wallet)

-- `createWallet`: the wallet of the user in the currency, deleted or not, or a new one.
unfoldable pub create_wallet_body : AuthUser → String → Tx Db WalletDto
unfolding to_dto
create_wallet_body user currency db = elim (find owner_column (owner_of user currency) db.wallets) [
  | none ↦ create_new_wallet user currency db
  | some existing ↦ ok (to_dto existing, db)
]

unfoldable pub create_wallet : Interference → AuthUser → String → Action Db WalletDto
create_wallet aborts user currency =
    serializable_transaction aborts (create_wallet_body user currency)

abbrev pub credit_posting : WalletOperation → ℕ → ℕ → LedgerPosting
credit_posting input clearing available = record {
  charging_session_id = none;
  description = "Credito na carteira Solis";
  entries = legs clearing available input.money;
  external_reference = none;
  idempotency_key = "wallet:credit:" ++ input.idempotency_key;
  payment_intent_id = input.payment_intent_id;
  tenant_id = input.user.tenant_id;
  transaction_type = or_default input.ledger_type TransactionType.top_up;
  user_id = some input.user.sub;
}

abbrev pub refund_posting : WalletOperation → ℕ → ℕ → LedgerPosting
refund_posting input refund available = record {
  charging_session_id = none;
  description = "Estorno para carteira Solis";
  entries = legs refund available input.money;
  external_reference = none;
  idempotency_key = "wallet:refund:" ++ input.idempotency_key;
  payment_intent_id = none;
  tenant_id = input.user.tenant_id;
  transaction_type = TransactionType.refund;
  user_id = some input.user.sub;
}

abbrev pub add_available : ℤ → Wallet → Wallet
add_available n w = record w {
  available_balance_minor = w.available_balance_minor +ℤ n;
  version = w.version + 1;
}

-- `currency ?? money.currency`
abbrev pub currency_of : WalletOperation → String
currency_of input = or_default input.currency input.money.currency

module _ (hash : HashedRequest → ℕ) where
  unfoldable pub credit_body : WalletOperation → Tx Db WalletDto
  credit_body input = do
    wallet ← lock_active_wallet input.user (currency_of input)
    accounts ← wallet_accounts wallet.id input.user.tenant_id (currency_of input)
    posting ← post hash (credit_posting input accounts.clearing.id accounts.available.id)
    unless posting.replayed (
        update_wallet wallet.id (add_available input.money.amount_minor)
        >> record_wallet_event input.user wallet.id "WALLET_CREDITED" "WalletCredited"
            input.correlation_id)
    current_dto wallet.id

  unfoldable pub credit : Interference → WalletOperation → Action Db WalletDto
  credit aborts input = serializable_transaction aborts (credit_body input)

  unfoldable pub refund_body : WalletOperation → Tx Db WalletDto
  refund_body input = do
    wallet ← lock_active_wallet input.user input.money.currency
    accounts ← wallet_accounts wallet.id input.user.tenant_id input.money.currency
    posting ← post hash (refund_posting input accounts.refund.id accounts.available.id)
    unless posting.replayed (
        update_wallet wallet.id (add_available input.money.amount_minor)
        >> record_wallet_event input.user wallet.id "WALLET_REFUNDED" "WalletRefunded"
            input.correlation_id)
    current_dto wallet.id

  unfoldable pub refund : Interference → WalletOperation → Action Db WalletDto
  refund aborts input = serializable_transaction aborts (refund_body input)

-- `get`
unfoldable pub get_wallet : AuthUser → String → Tx Db WalletDto
unfolding find_owned to_dto
get_wallet user currency db = elim (find_owned (owner_of user currency) db.wallets) [
  | none ↦ err not_found
  | some w ↦ ok (to_dto w, db)
]

abbrev blocked_status : Bool → WalletStatus
blocked_status true = WalletStatus.blocked
blocked_status false = WalletStatus.active

abbrev blocked_action : Bool → String
blocked_action true = "WALLET_BLOCKED"
blocked_action false = "WALLET_UNBLOCKED"

abbrev pub with_status : WalletStatus → Wallet → Wallet
with_status s w = record w { status = s; version = w.version + 1 }

unfoldable pub block_found : Wallet → AuthUser → Bool → ℕ → Tx Db WalletDto
unfolding update_wallet current_dto
block_found wallet user blocked correlation = do
  throw_if (wallet.status == WalletStatus.closed) conflict
  update_wallet wallet.id (with_status (blocked_status blocked))
  write_audit (record {
    action = blocked_action blocked;
    entity_type = "Wallet";
    entity_id = wallet.id;
    tenant_id = user.tenant_id;
    user_id = some user.sub;
    correlation_id = some correlation;
  })
  current_dto wallet.id

-- `setBlocked`, whose three statements run outside a transaction; the last two do not fail on a
-- row that was found.
unfoldable pub set_blocked : AuthUser → Bool → ℕ → Tx Db WalletDto
unfolding find_owned block_found
set_blocked user blocked correlation db = elim (find_owned (owner_of user "BRL") db.wallets) [
  | none ↦ err not_found
  | some w ↦ block_found w user blocked correlation db
]
