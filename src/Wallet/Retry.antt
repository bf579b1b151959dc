-- ===== src/Wallet/Retry.antt =====
-- `serializableTransaction`: up to three attempts against serialization failures of the database.
use ev_charge_platform.Prelude.{
  ℕ, zero, suc, ◌+◌, Option, none, some, nat_eq, Tx, Action, committed, err,
  financial_concurrency_conflict, serialization_failure, if◌then◌else◌,
}
use ev_charge_platform.Database.{Db}

-- For each attempt, whether the database aborts it with a serialization failure, and then what
-- other transactions have made of the tables by the next one.
abbrev pub Interference : Type 0
Interference = ℕ → Option Db

unfoldable pub attempts : {A : Type 0} → Interference → Tx Db A → ℕ → ℕ → Action Db A
attempts aborts operation zero attempt db = (err financial_concurrency_conflict, db)
attempts aborts operation (suc left) attempt db = elim (aborts attempt) [
  | none ↦ committed db (operation db)
  | some db' ↦
      let again = attempts aborts operation left (attempt + 1) db' in
      if nat_eq attempt 2 then (err serialization_failure, db') else again
]

unfoldable pub serializable_transaction : {A : Type 0} → Interference → Tx Db A → Action Db A
unfolding attempts
serializable_transaction aborts operation = attempts aborts operation 3 0
