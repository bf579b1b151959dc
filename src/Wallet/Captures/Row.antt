-- ===== src/Wallet/Captures/Row.antt =====
-- The write of a capture to the row of its wallet, and the keys of its two postings.
use Prim.Native.Nat.{◌+◌}
use Prim.Native.String.{◌++◌, count}
use text.Mathlib.TextLemmas.{length-append}
use ev_charge_platform.Prelude.{
  ℕ, ◌≡◌, refl, sym, ◌∙◌, ◌≢◌, inl, inr, ℤ, ◌+ℤ◌, ◌-ℤ◌, int_laws, String, ℕ_eq, arith, ap,
}
use ev_charge_platform.Database.{
  AccountType, AccountKey, AccountKey_eq, TransactionKey, TransactionKey_eq, Wallet,
}
use ev_charge_platform.Ledger.Transfers.{moved}
use ev_charge_platform.Wallet.{platform_key, user_key}
use ev_charge_platform.Wallet.Reservations.{settle_reserved}
use ev_charge_platform.Wallet.Invariant.{available_key, reserved_key}
use ev_charge_platform.Wallet.Movement.{Follows, moved_elsewhere}
use ev_charge_platform.Wallet.Steps.{moved_to, moved_from, moved_other, type_apart}

abbrev pub revenue_key : Wallet → AccountKey
revenue_key w = platform_key w.owner.tenant_id w.owner.currency AccountType.operator_revenue

pub user_apart :
    (t : ℕ) (c : String) (p : AccountType) (o : ℕ) (u : AccountType)
    → user_key t c o u ≢ platform_key t c p
user_apart t c p o u e = cc (ap (λ (k : AccountKey). k.owner_type) e)

abbrev pub named_key : ℕ → String → TransactionKey
named_key tenant key = record { tenant_id = tenant; idempotency_key = key }

-- The keys of the two postings of one capture differ.
pub excess_key_apart :
    (tenant : ℕ) (key : String)
    → named_key tenant ("wallet:release-excess:" ++ key)
      ≢ named_key tenant ("wallet:capture:" ++ key)
excess_key_apart tenant key e =
    let lengths : count "wallet:release-excess:" + count key ≡ count "wallet:capture:" + count key =
      sym (length-append "wallet:release-excess:" key)
      ∙ ap count (ap (λ (k : TransactionKey). k.idempotency_key) e)
      ∙ length-append "wallet:capture:" key in
    omega (arith, lengths)

-- What both postings of a capture do to an account.
abbrev pub capture_delta : Wallet → ℤ → ℤ → AccountKey → ℤ
capture_delta w captured released k =
    moved (reserved_key w) (revenue_key w) captured k
    +ℤ moved (reserved_key w) (available_key w) released k

sum_moved : (x a b : ℤ) → x +ℤ (a +ℤ b) ≡ (x +ℤ a) +ℤ b
sum_moved x a b = omega int_laws

rest_of : (x n m : ℤ) → (x -ℤ m) -ℤ (n -ℤ m) ≡ x -ℤ n
rest_of x n m = omega int_laws

capture_elsewhere :
    (w : Wallet) (m n : ℤ) (v : Wallet) (type : AccountType)
    → v.id ≢ w.id
    → (x : ℤ)
    → x +ℤ capture_delta w m (n -ℤ m) (user_key v.owner.tenant_id v.owner.currency v.id type) ≡ x
capture_elsewhere w m n v type d x =
    let k = user_key v.owner.tenant_id v.owner.currency v.id type in
    sum_moved x (moved (reserved_key w) (revenue_key w) m k)
      (moved (reserved_key w) (available_key w) (n -ℤ m) k)
    ∙ rw
        (moved_elsewhere w.id (reserved_key w) (revenue_key w) m v.owner.tenant_id v.owner.currency
          v.id type (inr refl) (inl refl) d x)
        (moved_elsewhere w.id (reserved_key w) (available_key w) (n -ℤ m) v.owner.tenant_id
          v.owner.currency v.id type (inr refl) (inr refl) d x)

pub capture-Follows :
    (w : Wallet) (m n : ℤ) → Follows (capture_delta w m (n -ℤ m)) (settle_reserved (n -ℤ m) n) w
capture-Follows w m n =
    let apart = type_apart w.owner.tenant_id w.id w.owner.currency in
    let reserved_apart = λ (e : reserved_key w ≡ available_key w). apart (sym e) in
    let revenue_apart = λ (u : AccountType).
      user_apart w.owner.tenant_id w.owner.currency AccountType.operator_revenue w.id u in
    record {
      keeps = λ v. (refl, refl, refl);
      available = sym (
          sum_moved w.available_balance_minor
            (moved (reserved_key w) (revenue_key w) m (available_key w))
            (moved (reserved_key w) (available_key w) (n -ℤ m) (available_key w))
          ∙ rw
              (moved_other (reserved_key w) (revenue_key w) (available_key w) m
                w.available_balance_minor reserved_apart
                (λ e. revenue_apart AccountType.user_wallet_available (sym e)))
              (moved_to (reserved_key w) (available_key w) (n -ℤ m) w.available_balance_minor
                reserved_apart));
      reserved = sym (
          sum_moved w.reserved_balance_minor
            (moved (reserved_key w) (revenue_key w) m (reserved_key w))
            (moved (reserved_key w) (available_key w) (n -ℤ m) (reserved_key w))
          ∙ rw
              (moved_from (reserved_key w) (revenue_key w) m w.reserved_balance_minor
                (revenue_apart AccountType.user_wallet_reserved))
              (moved_from (reserved_key w) (available_key w) (n -ℤ m)
                  (w.reserved_balance_minor -ℤ m) reserved_apart
                ∙ rest_of w.reserved_balance_minor n m));
      elsewhere = λ v d x. (
        capture_elsewhere w m n v AccountType.user_wallet_available d x,
        capture_elsewhere w m n v AccountType.user_wallet_reserved d x,
      );
    }
