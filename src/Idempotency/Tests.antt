-- ===== src/Idempotency/Tests.antt =====
-- The service on a store that is a function of the key.
use ev_charge_platform.Prelude.{
  ℕ, String, ◌≡◌, ◌≢◌, refl, ◌==◌, String_eq, eq_iff, Bool-cases, inl, inr, true, false, Option,
  none, some, ok, err, Action, idempotency_in_progress, if◌then◌else◌, ◌+◌,
}
use ev_charge_platform.Idempotency.{
  Redis, Stored, result_key, lock_key, inside, run_locked, execute_key, execute,
}
use ev_charge_platform.Idempotency.Keys.{differs}
use ev_charge_platform.Idempotency.Once.{IsStore, execute-again}

abbrev Memory : Type 0
Memory = String → Option String

abbrev with_entry : String → Option String → Memory → Memory
with_entry k v m l = if l == k then v else m l

abbrev memory : Redis Memory
memory = record {
  get = λ k m. m k;
  set = λ k v _ m. with_entry k (some v) m;
  set_if_absent =
      λ k v _ m. elim (m k) [ some _ ↦ (false, m) | none ↦ (true, with_entry k (some v) m) ];
  delete = λ k m. with_entry k none m;
}

with_entry-same : (k : String) (v : Option String) (m : Memory) → with_entry k v m k ≡ v
with_entry-same k v m = rw ((eq_iff k k).1 refl) refl

with_entry-other :
    (k l : String) (v : Option String) (m : Memory) → k ≢ l → with_entry l v m k ≡ m k
with_entry-other k l v m n = elim (Bool-cases (k == l)) [
  | inl e ↦ absurd (n ((eq_iff k l).0 e))
  | inr e ↦ rw e refl
]

memory-IsStore : IsStore memory
memory-IsStore = record {
  get_set = λ k v _ m. with_entry-same k (some v) m;
  get_delete = λ k m. with_entry-same k none m;
  get_delete_other = λ k l m n. with_entry-other k l none m n;
}

-- A method that counts how often it has run.
abbrev counting : Action ℕ String
counting n = (ok "charged", n + 1)

abbrev failing : Action ℕ String
failing n = (err idempotency_in_progress, n + 1)

abbrev at_first : Stored ℕ Memory
at_first = record { state = 0; store = λ _. none }

abbrev after : Stored ℕ Memory
after = (execute memory (λ t. t) ok "start" (some "k-1") 60 counting at_first).1

runs_once : after.state ≡ 1
unfolding execute execute_key run_locked inside result_key lock_key
runs_once = refl

lock_is_gone : after.store (lock_key "start" "k-1") ≡ none
unfolding execute execute_key run_locked inside result_key lock_key
lock_is_gone = refl

execute-again_example :
    execute memory (λ t. t) ok "start" (some "k-1") 60 failing after ≡ (ok "charged", after)
unfolding execute execute_key run_locked inside result_key lock_key
execute-again_example =
    execute-again memory (λ t. t) ok memory-IsStore "start" "k-1" 60 60 counting failing at_first
      (differs "k-1" "" refl) (differs "charged" "" refl) refl refl
