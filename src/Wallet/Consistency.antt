-- ===== src/Wallet/Consistency.antt =====
-- Every method of the wallet that moves money, retries and failures included, leaves the wallet
-- rows in agreement with the ledger.
use Prim.Native.String.{◌++◌}
use ev_charge_platform.Prelude.{ℕ, ◌≡◌, some, String}
use ev_charge_platform.Database.{Db}
use ev_charge_platform.Ledger.{HashedRequest}
use ev_charge_platform.Wallet.{Interference, WalletOperation}
use ev_charge_platform.Wallet.Operations.{credit, credit_body, refund, refund_body}
use ev_charge_platform.Wallet.Reservations.{reserve, reserve_body, reserve_key}
use ev_charge_platform.Wallet.Settlement.{
  capture_reserved, capture_reserved_body, release_reserved, release_reserved_body,
}
use ev_charge_platform.Wallet.Invariant.{Reconciles}
use ev_charge_platform.Wallet.Attempts.{serializable_transaction-keeps}
use ev_charge_platform.Wallet.Holds.{IsUnseen}
use ev_charge_platform.Wallet.Releases.{reserve_body-Reconciles, release_reserved_body-Reconciles}
use ev_charge_platform.Wallet.Captures.{capture_reserved_body-Reconciles}
use ev_charge_platform.Wallet.Reconciliation.{credit_body-Reconciles, refund_body-Reconciles}

-- What the other transactions leave between the attempts of a method.
abbrev pub Leave : (Db → Type 0) → Interference → Type 0
Leave P aborts = (n : ℕ) (d : Db) → aborts n ≡ some d → P d

-- The rows agree with the ledger, and the ledger has not seen a key.
pub record IsReady (tenant : ℕ) (key : String) (db : Db) : Type 0 where
  pub agrees : Reconciles db
  pub unseen : IsUnseen tenant key db

module _ (hash : HashedRequest → ℕ) (aborts : Interference) (input : WalletOperation)
    (db : Db) where
  -- After `credit`, whether it returns, throws or is retried, every balance of a wallet row is the
  -- balance of its account in the ledger, if that is so before it and after each transaction that
  -- aborts one of its attempts.
  pub credit-Reconciles :
      Leave Reconciles aborts → Reconciles db → Reconciles (credit hash aborts input db).1
  unfolding credit
  credit-Reconciles others before =
      serializable_transaction-keeps aborts (credit_body hash input) Reconciles Reconciles db
        (λ d r. r) (λ d a d' r h. credit_body-Reconciles hash input d r h) others before

  -- After `refund`, whether it returns, throws or is retried, every balance of a wallet row is the
  -- balance of its account in the ledger, if that is so before it and after each transaction that
  -- aborts one of its attempts.
  pub refund-Reconciles :
      Leave Reconciles aborts → Reconciles db → Reconciles (refund hash aborts input db).1
  unfolding refund
  refund-Reconciles others before =
      serializable_transaction-keeps aborts (refund_body hash input) Reconciles Reconciles db
        (λ d r. r) (λ d a d' r h. refund_body-Reconciles hash input d r h) others before

  -- After `reserve`, whether it returns, throws or is retried, every balance of a wallet row is the
  -- balance of its account in the ledger, if before it and after each transaction that aborts one
  -- of its attempts that is so and the ledger has no transaction under the key of its posting.
  pub reserve-Reconciles :
      Leave (IsReady input.user.tenant_id (reserve_key input)) aborts
      → IsReady input.user.tenant_id (reserve_key input) db
      → Reconciles (reserve hash aborts input db).1
  unfolding reserve
  reserve-Reconciles others before =
      serializable_transaction-keeps aborts (reserve_body hash input)
        (IsReady input.user.tenant_id (reserve_key input)) Reconciles db (λ d r. r.agrees)
        (λ d a d' r h. reserve_body-Reconciles hash input d r.agrees r.unseen h) others before

  -- After `releaseReserved`, whether it returns, throws or is retried, every balance of a wallet row
  -- is the balance of its account in the ledger, if before it and after each transaction that aborts
  -- one of its attempts that is so and the ledger has no transaction under the key of its posting.
  pub release_reserved-Reconciles :
      (reservation : ℕ)
      → Leave (IsReady input.user.tenant_id ("wallet:release:" ++ input.idempotency_key)) aborts
      → IsReady input.user.tenant_id ("wallet:release:" ++ input.idempotency_key) db
      → Reconciles (release_reserved hash aborts reservation input db).1
  unfolding release_reserved
  release_reserved-Reconciles reservation others before =
      serializable_transaction-keeps aborts (release_reserved_body hash reservation input)
        (IsReady input.user.tenant_id ("wallet:release:" ++ input.idempotency_key)) Reconciles db
        (λ d r. r.agrees)
        (λ d a d' r h.
          release_reserved_body-Reconciles hash reservation input d r.agrees r.unseen h)
        others before

  -- After `captureReserved`, whether it returns, throws or is retried, every balance of a wallet row
  -- is the balance of its account in the ledger, if before it and after each transaction that aborts
  -- one of its attempts that is so and the ledger has no transaction under the keys of its two
  -- postings.
  pub capture_reserved-Reconciles :
      (reservation : ℕ)
      → Leave
          (λ d.
            IsReady input.user.tenant_id ("wallet:capture:" ++ input.idempotency_key) d
            × IsUnseen input.user.tenant_id ("wallet:release-excess:" ++ input.idempotency_key) d)
          aborts
      → IsReady input.user.tenant_id ("wallet:capture:" ++ input.idempotency_key) db
      → IsUnseen input.user.tenant_id ("wallet:release-excess:" ++ input.idempotency_key) db
      → Reconciles (capture_reserved hash aborts reservation input db).1
  unfolding capture_reserved
  capture_reserved-Reconciles reservation others before excess =
      serializable_transaction-keeps aborts (capture_reserved_body hash reservation input)
        (λ d.
          IsReady input.user.tenant_id ("wallet:capture:" ++ input.idempotency_key) d
          × IsUnseen input.user.tenant_id ("wallet:release-excess:" ++ input.idempotency_key) d)
        Reconciles db (λ d r. r.0.agrees)
        (λ d a d' r h.
          capture_reserved_body-Reconciles hash reservation input d r.0.agrees r.0.unseen r.1 h)
        others (before, excess)
