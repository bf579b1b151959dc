-- ===== src/Idempotency/Keys.antt =====
-- The keys of the store: a result is never filed under a lock.
use Prim.Native.String.{◌++◌, slice}
use text.Mathlib.TextLemmas.{append_assoc}
use text.Mathlib.TextPositions.{slice-append_left}
use ev_charge_platform.Prelude.{
  String, ◌≡◌, ◌≢◌, refl, sym, ◌∙◌, ap, ◌==◌, String_eq, eq_iff, false,
}
use ev_charge_platform.Idempotency.{result_key, lock_key}

pub differs : (a b : String) → (a == b) ≡ false → a ≢ b
differs a b h e = cc (h, (eq_iff a b).1 e)

-- A result's key without its first seventeen bytes.
split_key : (t : String) → "idempotency:result:" ++ t ≡ "idempotency:resul" ++ ("t:" ++ t)
split_key t = append_assoc "idempotency:resul" "t:" t

pub result_key-lock_key : (scope k : String) → result_key scope k ≢ lock_key scope k
unfolding result_key lock_key
result_key-lock_key scope k e = differs "idempotency:resul" "idempotency:lock:" refl (
    sym (slice-append_left "idempotency:resul" ("t:" ++ (scope ++ ":" ++ k)))
    ∙ ap (λ s. slice s 0 17) (sym (split_key (scope ++ ":" ++ k)) ∙ e)
    ∙ slice-append_left "idempotency:lock:" (scope ++ ":" ++ k))
