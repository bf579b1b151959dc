-- ===== src/Ledger/Checks.antt =====
-- What `post` demands of a posting before it writes: `assertBalanced`, and the accounts.
use ev_charge_platform.Prelude.{
  ℕ, ℤ, pos, ◌+ℤ◌, eq_ℤ, leb_ℤ, ltb, nat_eq, String, ◌==◌, String_eq, ℕ_eq, Bool, true, not, ◌&&◌,
  ◌||◌, none, some, List, [], ◌∷◌, length, any, map, find, Result, ok, err, conflict, if◌then◌else◌,
}
use ev_charge_platform.Database.{
  LedgerAccount, AccountStatus, AccountStatus_eq, Direction, Direction_eq, Db,
}
use ev_charge_platform.Ledger.Requests.{LedgerPostingEntry, account_id_of}

-- `entries.filter((entry) => entry.direction === direction)`
unfoldable pub with_direction : Direction → List LedgerPostingEntry → List LedgerPostingEntry
with_direction d [] = []
with_direction d (e ∷ es) =
    let rest = with_direction d es in if e.direction == d then e ∷ rest else rest

-- `.reduce((sum, entry) => sum + entry.money.amountMinor, sum)`
unfoldable pub reduce_sum : ℤ → List LedgerPostingEntry → ℤ
unfolding ◌+ℤ◌
reduce_sum sum [] = sum
reduce_sum sum (e ∷ es) = reduce_sum (sum +ℤ e.money.amount_minor) es

unfoldable pub total_in : Direction → List LedgerPostingEntry → ℤ
unfolding with_direction reduce_sum
total_in d es = reduce_sum (pos 0) (with_direction d es)

unfoldable pub differs_from : String → LedgerPostingEntry → Bool
differs_from currency e = not (e.money.currency == currency)

unfoldable pub assert_balanced : List LedgerPostingEntry → Result (Unit {0})
unfolding differs_from total_in
assert_balanced [] = err conflict
assert_balanced (e ∷ es) =
    if ltb (length (e ∷ es)) 2
    then err conflict
    else if any (differs_from e.money.currency) (e ∷ es)
    then err conflict
    else if leb_ℤ (total_in Direction.debit (e ∷ es)) (pos 0)
        || not (eq_ℤ (total_in Direction.debit (e ∷ es)) (total_in Direction.credit (e ∷ es)))
    then err conflict
    else ok tt

-- `[...new Set(ids)]`
unfoldable pub distinct : List ℕ → List ℕ
distinct [] = []
distinct (x ∷ xs) = let rest = distinct xs in if any (nat_eq x) xs then rest else x ∷ rest

-- `ledgerAccount.findMany({ where: { id: { in: ids }, tenantId } })`
unfoldable pub select_accounts : List ℕ → ℕ → List LedgerAccount → List LedgerAccount
select_accounts ids tenant [] = []
select_accounts ids tenant (a ∷ as') =
    let rest = select_accounts ids tenant as' in
    if any (nat_eq a.id) ids && a.key.tenant_id == tenant then a ∷ rest else rest

abbrev is_inactive : LedgerAccount → Bool
is_inactive a = not (a.status == AccountStatus.active)

-- `accountCurrencies.get(entry.accountId) !== entry.money.currency`
unfoldable pub wrong_currency : List LedgerAccount → LedgerPostingEntry → Bool
wrong_currency accounts e = elim (find account_id_of e.account_id accounts) [
  | none ↦ true
  | some a ↦ not (a.key.currency == e.money.currency)
]

abbrev entry_account : LedgerPostingEntry → ℕ
entry_account e = e.account_id

unfoldable pub check_accounts : List LedgerPostingEntry → ℕ → Db → Result (Unit {0})
unfolding distinct select_accounts wrong_currency
check_accounts entries tenant db =
    let ids = distinct (map entry_account entries) in
    let accounts = select_accounts ids tenant db.accounts in
    if not (nat_eq (length accounts) (length ids)) || any is_inactive accounts
    then err conflict
    else if any (wrong_currency accounts) entries
    then err conflict
    else ok tt
