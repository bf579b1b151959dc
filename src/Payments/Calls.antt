-- ===== src/Payments/Calls.antt =====
-- What the calls inside a method of the policy have returned.
use ev_charge_platform.Prelude.{
  ℕ, ◌≡◌, sym, ◌∙◌, ap, Option, none, some, Failure, Result, ok, err, Action, arith,
}
use ev_charge_platform.Prelude.Methods.{reads, calls, meanwhile, bind-eq-ok, returned-eq, ◌>>=◌}
use ev_charge_platform.Database.{Db}
use ev_charge_platform.Intents.Service.{IntentDb}
use ev_charge_platform.Payments.Policy.{
  PaymentsDb, Surroundings, with_wallet, with_intents, on_wallet, on_intents, or_failure,
}

-- Nobody else writes to the tables.
pub record IsQuiet (env : Surroundings) : Type 0 where
  pub outside : env.others ≡ (λ n s. s)
  pub inside : env.between ≡ (λ n d. d)

abbrev pub tables_of : {A : Type 0} → Result A × PaymentsDb → PaymentsDb
tables_of p = p.1

module _ {A : Type 0} where
  pub returned :
      (x : Failure) (o : Option A) (s : PaymentsDb) {a : A} {t : PaymentsDb}
      → calls (or_failure x o) s ≡ (ok a, t)
      → (o ≡ some a) × (t ≡ s)
  returned x none s h = cc (ap (λ p. p.0) h)
  returned x (some b) s h = ground arith

  with_wallet-eq-ok :
      (s : PaymentsDb) (p : Result A × Db) {a : A} {t : PaymentsDb}
      → with_wallet s p ≡ (ok a, t)
      → (d : Db) × (p ≡ (ok a, d)) × (t ≡ record s { wallet = d })
  with_wallet-eq-ok s (ok b, d) h =
      (d, ap (λ r. (r, d)) (ap (λ (p : Result A × PaymentsDb). p.0) h), sym (ap tables_of h))
  with_wallet-eq-ok s (err x, d) h = cc (ap (λ (p : Result A × PaymentsDb). p.0) h)

  pub on_wallet-eq-ok :
      (call : Action Db A) (s : PaymentsDb) {a : A} {t : PaymentsDb}
      → on_wallet call s ≡ (ok a, t)
      → (d : Db) × (call s.wallet ≡ (ok a, d)) × (t ≡ record s { wallet = d })
  unfolding on_wallet
  on_wallet-eq-ok call s h = with_wallet-eq-ok s (call s.wallet) h

  with_intents-eq-ok :
      (s : PaymentsDb) (p : Result A × IntentDb) {a : A} {t : PaymentsDb}
      → with_intents s p ≡ (ok a, t)
      → (d : IntentDb) × (p ≡ (ok a, d)) × (t ≡ record s { intents = d })
  with_intents-eq-ok s (ok b, d) h =
      (d, ap (λ r. (r, d)) (ap (λ (p : Result A × PaymentsDb). p.0) h), sym (ap tables_of h))
  with_intents-eq-ok s (err x, d) h = cc (ap (λ (p : Result A × PaymentsDb). p.0) h)

  pub on_intents-eq-ok :
      (call : Action IntentDb A) (s : PaymentsDb) {a : A} {t : PaymentsDb}
      → on_intents call s ≡ (ok a, t)
      → (d : IntentDb) × (call s.intents ≡ (ok a, d)) × (t ≡ record s { intents = d })
  unfolding on_intents
  on_intents-eq-ok call s h = with_intents-eq-ok s (call s.intents) h

  -- A table that is read and a row that must be there.
  pub required :
      (x : Failure) (f : PaymentsDb → Option A) (s : PaymentsDb) {a : A} {t : PaymentsDb}
      → (reads f >>= λ found. calls (or_failure x found)) s ≡ (ok a, t)
      → (f s ≡ some a) × (t ≡ s)
  required x f s h =
      let (found, s1, read, rest) = bind-eq-ok (reads f) _ s h in
      let (it, same) = returned-eq read in
      let (there, still) = returned x found s1 rest in (it ∙ there, still ∙ same)

module _ {env : Surroundings} (quiet : IsQuiet env) where
  pub nothing_meanwhile :
      (n : ℕ) (s : PaymentsDb) {u : Unit {0}} {t : PaymentsDb}
      → meanwhile (env.others n) s ≡ (ok u, t)
      → t ≡ s
  nothing_meanwhile n s h = sym (ap tables_of h) ∙ ap (λ f. f n s) quiet.outside
