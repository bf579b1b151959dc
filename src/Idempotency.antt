-- ===== src/Idempotency.antt =====
-- apps/backend/src/common/idempotency.service.ts: a method runs once for a key, and a call that
-- repeats the key gets the first result from the store.
use Prim.Native.String.{◌++◌}
use ev_charge_platform.Prelude.{
  ℕ, String, ◌==◌, String_eq, Bool, true, false, Option, none, some, Result, ok, err, Action,
  idempotency_in_progress, if◌then◌else◌,
}
use ev_charge_platform.Prelude.Methods.{returns, throws, reads, calls, ◌>>=◌, ◌>>◌}
pub mod Keys
pub mod Once
mod Tests

-- The commands of Redis that the service sends; `set_if_absent` tells whether it has set the key.
pub record Redis (R : Type 0) : Type 0 where
  pub get : String → R → Option String
  pub set : String → String → ℕ → R → R
  pub set_if_absent : String → String → ℕ → R → Bool × R
  pub delete : String → R → R

-- The state of a method beside the store.
pub record Stored (S R : Type 0) : Type 0 where
  pub state : S
  pub store : R

unfoldable pub result_key : String → String → String
result_key scope key = "idempotency:result:" ++ scope ++ ":" ++ key

unfoldable pub lock_key : String → String → String
lock_key scope key = "idempotency:lock:" ++ scope ++ ":" ++ key

-- `if (!key)` and `if (cached)`: the empty text counts as none.
abbrev pub given : Option String → Option String
given none = none
given (some text) = if text == "" then none else some text

module _ {S R : Type 0} where
  abbrev pub on_store : (R → R) → Stored S R → Stored S R
  on_store change c = record c { store = change c.store }

module _ {S R T : Type 0} where
  abbrev pub beside_store : R → Result T × S → Result T × Stored S R
  beside_store r (result, s) = (result, record { state = s; store = r })

  -- The method itself, which does not touch the store.
  unfoldable pub inside : Action S T → Action (Stored S R) T
  inside producer c = beside_store c.store (producer c.state)

module _ {S R T : Type 0} (redis : Redis R) (encode : T → String) (decode : String → Result T) where
  -- `const result = await producer(); await redis.set(...); return result;`
  abbrev pub produced : String → ℕ → Result T × Stored S R → Result T × Stored S R
  produced key ttl (ok result, c) = (ok result, on_store (redis.set key (encode result) ttl) c)
  produced key ttl (err x, c) = (err x, c)

  -- `finally { await redis.del(lockKey); }`
  abbrev pub unlocked : String → Result T × Stored S R → Result T × Stored S R
  unlocked key (result, c) = (result, on_store (redis.delete key) c)

  unfoldable pub run_locked : String → String → ℕ → Action S T → Bool × R → Action (Stored S R) T
  unfolding inside result_key lock_key
  run_locked scope key ttl producer (false, r) c =
      (err idempotency_in_progress, record c { store = r })
  run_locked scope key ttl producer (true, r) c =
      unlocked (lock_key scope key)
        (produced (result_key scope key) ttl (inside producer (record c { store = r })))

  unfoldable pub execute_key : String → String → ℕ → Action S T → Action (Stored S R) T
  unfolding run_locked
  execute_key scope key ttl producer c = elim (given (redis.get (result_key scope key) c.store)) [
    | some cached ↦ (decode cached, c)
    | none ↦
        run_locked scope key ttl producer (redis.set_if_absent (lock_key scope key) "1" 30 c.store)
          c
  ]

  unfoldable pub execute : String → Option String → ℕ → Action S T → Action (Stored S R) T
  unfolding execute_key
  execute scope key ttl producer c = elim (given key) [
    | none ↦ inside producer c
    | some k ↦ execute_key scope k ttl producer c
  ]
