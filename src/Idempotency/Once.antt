-- ===== src/Idempotency/Once.antt =====
-- A key runs its method once.
use ev_charge_platform.Prelude.{
  ℕ, String, ◌≡◌, ◌≢◌, refl, sym, ◌∙◌, ap, inl, inr, ◌==◌, String_eq, eq_iff, Bool, true, false,
  none, some, Result, ok, err, Action, Option-cases, Bool-cases,
}
use ev_charge_platform.Prelude.Methods.{returned-eq}
use ev_charge_platform.Idempotency.Keys.{result_key-lock_key}
use ev_charge_platform.Idempotency.{
  Redis, Stored, result_key, lock_key, given, inside, produced, unlocked, run_locked, execute_key,
  execute,
}

-- What the service relies on: a key that is set reads as its value, a deleted one as none, and a
-- command leaves the other keys alone.
pub record IsStore {R : Type 0} (redis : Redis R) : Type 0 where
  pub get_set : (k v : String) (ttl : ℕ) (r : R) → redis.get k (redis.set k v ttl r) ≡ some v
  pub get_delete : (k : String) (r : R) → redis.get k (redis.delete k r) ≡ none
  pub get_delete_other :
      (k l : String) (r : R) → k ≢ l → redis.get k (redis.delete l r) ≡ redis.get k r

given-some : (v : String) → v ≢ "" → given (some v) ≡ some v
given-some v n = elim (Bool-cases (v == "")) [
  | inl e ↦ absurd (n ((eq_iff v "").0 e))
  | inr e ↦ rw e refl
]

module _ {S R T : Type 0} (redis : Redis R) (encode : T → String) (decode : String → Result T) where
  -- With a result in the store the method does not run.
  from_store :
      (scope k v : String) (ttl : ℕ) (producer : Action S T) (c : Stored S R)
      → given (redis.get (result_key scope k) c.store) ≡ some v
      → execute_key redis encode decode scope k ttl producer c ≡ (decode v, c)
  unfolding execute_key
  from_store scope k v ttl producer c h = rw (execute_key, h) refl

  -- Without one it runs behind the lock.
  locking :
      (scope k : String) (ttl : ℕ) (producer : Action S T) (c : Stored S R)
      → given (redis.get (result_key scope k) c.store) ≡ none
      → execute_key redis encode decode scope k ttl producer c
        ≡ run_locked redis encode decode scope k ttl producer
            (redis.set_if_absent (lock_key scope k) "1" 30 c.store)
            c
  unfolding execute_key
  locking scope k ttl producer c h = rw (execute_key, h) refl

  -- A run that ends well leaves its result in the store.
  stores :
      IsStore redis
      → (scope k : String) (ttl : ℕ) (p : Result T × Stored S R) {t : T} {d : Stored S R}
      → unlocked redis encode decode
          (lock_key scope k)
          (produced redis encode decode (result_key scope k) ttl p)
        ≡ (ok t, d)
      → redis.get (result_key scope k) d.store ≡ some (encode t)
  stores laws scope k ttl (ok v, c) h =
      ap (λ x. redis.get (result_key scope k) x.store) (returned-eq h).1
      ∙ laws.get_delete_other (result_key scope k) (lock_key scope k) _
          (result_key-lock_key scope k)
      ∙ laws.get_set (result_key scope k) (encode v) ttl c.store
      ∙ ap (λ x. some (encode x)) (returned-eq h).0
  stores laws scope k ttl (err x, c) h = cc (ap (λ p. p.0) h)

  locked_stores :
      IsStore redis
      → (scope k : String) (ttl : ℕ) (producer : Action S T) (lock : Bool × R) (c : Stored S R)
        {t : T} {d : Stored S R}
      → run_locked redis encode decode scope k ttl producer lock c ≡ (ok t, d)
      → redis.get (result_key scope k) d.store ≡ some (encode t)
  unfolding run_locked
  locked_stores laws scope k ttl producer (true, r) c h =
      stores laws scope k ttl (inside producer (record c { store = r })) h
  locked_stores laws scope k ttl producer (false, r) c h = cc (ap (λ p. p.0) h)

  key_again :
      IsStore redis
      → (scope k : String) (ttl again : ℕ) (producer other : Action S T) (c : Stored S R) {t : T}
        {d : Stored S R}
      → encode t ≢ ""
      → decode (encode t) ≡ ok t
      → execute_key redis encode decode scope k ttl producer c ≡ (ok t, d)
      → execute_key redis encode decode scope k again other d ≡ (ok t, d)
  key_again laws scope k ttl again producer other c {t} {d} written read h =
      elim (Option-cases (given (redis.get (result_key scope k) c.store))) [
        | inl e ↦
            let kept =
              locked_stores laws scope k ttl producer
                (redis.set_if_absent (lock_key scope k) "1" 30 c.store) c
                (sym (locking scope k ttl producer c e) ∙ h) in
            from_store scope k (encode t) again other d
              (ap given kept ∙ given-some (encode t) written)
            ∙ ap (λ r. (r, d)) read
        | inr (v, e) ↦
            let run = sym (from_store scope k v ttl producer c e) ∙ h in
            let same = ap (λ p. p.1) run in
            from_store scope k v again other d
              (ap (λ x. given (redis.get (result_key scope k) x.store)) (sym same) ∙ e)
            ∙ ap (λ r. (r, d)) (ap (λ p. p.0) run)
      ]

  with_key :
      (scope k : String) (ttl : ℕ) (producer : Action S T) (c : Stored S R)
      → k ≢ ""
      → execute redis encode decode scope (some k) ttl producer c
        ≡ execute_key redis encode decode scope k ttl producer c
  unfolding execute
  with_key scope k ttl producer c m = rw (execute, given-some k m) refl

  -- When a call with a key has returned a value, a second call with the same scope and key returns
  -- that value and changes neither the tables nor the store, whatever method it is given. The
  -- key must not be empty, the store must keep what is set, and the value must have a text that is
  -- not empty and decodes back.
  pub execute-again :
      IsStore redis
      → (scope k : String) (ttl again : ℕ) (producer other : Action S T) (c : Stored S R) {t : T}
        {d : Stored S R}
      → k ≢ ""
      → encode t ≢ ""
      → decode (encode t) ≡ ok t
      → execute redis encode decode scope (some k) ttl producer c ≡ (ok t, d)
      → execute redis encode decode scope (some k) again other d ≡ (ok t, d)
  execute-again laws scope k ttl again producer other c m written read h =
      with_key scope k again other _ m
      ∙ key_again laws scope k ttl again producer other c written read
          (sym (with_key scope k ttl producer c m) ∙ h)
