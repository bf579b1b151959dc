-- ===== src/Sessions/Aftermath.antt =====
-- What a failed settlement leaves behind.
use ev_charge_platform.Prelude.{
  ℕ, ℤ, ◌≡◌, refl, sym, ◌∙◌, ap, inl, inr, nat_eq_iff, ℕ_eq, String, Bool, true, false, not, some,
  find, found-before, ◌==◌, Failure, Result, ok, err, Tx, Action, committed, throw_if,
  throw_if-eq-ok, >>=-then, >>=-runs, if-eq-ok, then-runs, pure-eq-ok, conflict, if◌then◌else◌,
  arith,
}
use ev_charge_platform.Prelude.Methods.{
  bind-runs, bind-fails, try_catch-fails, bind-leaves, meanwhile, calls,
}
use ev_charge_platform.Money.{Money}
use ev_charge_platform.Money.Decimal.{from_decimal}
use ev_charge_platform.Database.{
  AuthUser, SessionStatus, SessionStatus_eq, same_session_status_iff, ConnectorStatus,
}
use ev_charge_platform.Charging.{is_terminal_charging_session_state}
use ev_charge_platform.Sessions.Tariffs.{Doubles}
use ev_charge_platform.Sessions.Rows.{ChargingSession, ChargingDb, session_id_of}
use ev_charge_platform.Sessions.Presenter.{read_tariff_snapshot}
use ev_charge_platform.Sessions.Statements.{changed_session, set_connector_status, transition}
use ev_charge_platform.Sessions.Progress.{
  Prepared, read_session, prepare_stop, completion, add_to_totals, complete_stopping, complete_body,
}
use ev_charge_platform.Sessions.Endings.{fail_body}
use ev_charge_platform.Sessions.Platform.{
  System, PaymentPolicy, ChargerGateway, World, beside, behind, in_transaction, paying,
}
use ev_charge_platform.Sessions.Service.{
  fail_session, fail_and_rethrow, complete_session, stop_charger, stop,
}
use ev_charge_platform.Sessions.Effects.{
  IsQuiet, IsQuiet-of_eq, IsQuiet-through, IsWritten, transition-eq-ok,
}
use ev_charge_platform.Sessions.Moves.{read_session-eq-ok}
use ev_charge_platform.Sessions.Closings.{add_to_totals-IsQuiet}

module _ {D : Type 0} where
  -- The session of the number is over.
  pub record IsOver (id : ℕ) (db : ChargingDb D) : Type 0 where
    pub session : ChargingSession D
    pub found : find session_id_of id db.sessions ≡ some session
    pub ended : session.status ≡ SessionStatus.completed

module _ {D : Type 0} ⦃f : Doubles D⦄ where
  written-IsOver :
      (current : ChargingSession D) (a b c : ChargingDb D)
      → IsWritten current SessionStatus.completed a b
      → IsQuiet b c
      → IsOver current.id c
  unfolding changed_session
  written-IsOver current a b c w q = record {
    session = changed_session SessionStatus.completed w.stored w.row;
    found =
        ap (find session_id_of current.id) (q.sessions ∙ w.sessions)
        ∙ found-before session_id_of current.id (changed_session SessionStatus.completed w.stored)
            a.sessions (λ s. refl) current.id w.row w.found
        ∙ rw ((nat_eq_iff current.id current.id).1 refl) refl;
    ended = refl;
  }

  complete_stopping-IsOver :
      (current : ChargingSession D) (user : AuthUser) (correlation : ℕ) (meter_stop : ℤ) (now : ℕ)
      (db : ChargingDb D) {s : ChargingSession D} {db' : ChargingDb D}
      → complete_stopping current user correlation meter_stop now db ≡ ok (s, db')
      → IsOver current.id db'
  unfolding complete_stopping
  complete_stopping-IsOver current user correlation meter_stop now db {db' = db'} h =
      >>=-then (throw_if (not (current.status == SessionStatus.stopping)) conflict) _ db h
        λ u d1 h1 r1.
          >>=-then (set_connector_status current.connector_id ConnectorStatus.available) _ d1 r1
            λ v d2 h2 r2.
              >>=-then
                (transition current SessionStatus.completed user correlation
                  (completion current meter_stop now))
                _ d2 r2
                λ done d3 h3 r3. >>=-then (add_to_totals current.user_id _) _ d3 r3 λ w d4 h4 r4.
                  let (there, _) =
                    throw_if-eq-ok (not (current.status == SessionStatus.stopping)) conflict db
                      h1 in
                  let elsewhere : (current.status == SessionStatus.completed) ≡ false =
                    ground arith in
                  let quiet =
                    IsQuiet-through (add_to_totals-IsQuiet current.user_id _ d3 h4)
                      (IsQuiet-of_eq (pure-eq-ok r4).1) in
                  let (_, done) =
                    transition-eq-ok current SessionStatus.completed user correlation
                      (completion current meter_stop now) d2 h3 in
                  elim done [
                    | inl (same, _) ↦ cc (
                      (same_session_status_iff current.status SessionStatus.completed).1 same,
                      elsewhere,
                    )
                    | inr written ↦ written-IsOver current d2 d3 db' written quiet
                  ]

  pub complete_body-IsOver :
      (id : ℕ) (user : AuthUser) (correlation : ℕ) (meter_stop : ℤ) (now : ℕ) (db : ChargingDb D)
      {s : ChargingSession D} {db' : ChargingDb D}
      → complete_body id user correlation meter_stop now db ≡ ok (s, db')
      → IsOver id db'
  unfolding complete_body
  complete_body-IsOver id user correlation meter_stop now db {db' = db'} h =
      >>=-then (read_session id) _ db h λ current d e rest.
        let (read, same, number) = read_session-eq-ok id db e in
        elim (if-eq-ok (current.status == SessionStatus.completed) _ _ d rest) [
          | inl (there, g) ↦ record {
            session = current;
            found =
                ap (λ (x : ChargingDb D). find session_id_of id x.sessions)
                  ((pure-eq-ok g).1 ∙ same)
                ∙ ap (λ k. find session_id_of k db.sessions) (sym number)
                ∙ read;
            ended = (same_session_status_iff current.status SessionStatus.completed).0 there;
          }
          | inr (elsewhere, g) ↦
              rw number at (complete_stopping-IsOver current user correlation meter_stop now d g)
        ]

  -- Failing a session that is over leaves the tables alone.
  fail_body-leaves :
      (id : ℕ) (user : AuthUser) (correlation : ℕ) (reason : String) (now : ℕ) (db : ChargingDb D)
      → (over : IsOver id db)
      → fail_body id user correlation reason false now db ≡ ok (over.session, db)
  unfolding fail_body read_session is_terminal_charging_session_state
  fail_body-leaves id user correlation reason now db over =
      let read : read_session id db ≡ ok (over.session, db) = rw (read_session, over.found) refl in
      >>=-runs (read_session id) _ db read (
        then-runs (is_terminal_charging_session_state over.session.status) _ _ db
          (rw over.ended refl) refl)

module _ {D P A : Type 0} where
  chosen :
      (b : Bool) (m n : Action (System D P) A) (s : System D P) {r : Result A × System D P}
      → b ≡ true
      → m s ≡ r
      → (if b then m else n) s ≡ r
  chosen true m n s h k = k
  chosen false m n s h k = cc h

  commits :
      (body : Tx (ChargingDb D) A) (s : System D P) {a : A} {db : ChargingDb D}
      → body s.charging ≡ ok (a, db)
      → in_transaction body s ≡ (ok a, record { charging = db; payments = s.payments })
  unfolding in_transaction
  commits body s h = ap (λ r. beside s.payments (committed s.charging r)) h

  pays :
      (call : P → Result A × P) (s : System D P) {r : Result A} {q : P}
      → call s.payments ≡ (r, q)
      → paying call s ≡ (r, record { charging = s.charging; payments = q })
  unfolding paying
  pays call s h = ap (behind s.charging) h

module _ {D P : Type 0} ⦃f : Doubles D⦄ (policy : PaymentPolicy P) (world : World D P)
    (idle : (n : ℕ) (s : System D P) → world.others n s ≡ s) where
  waits : (n : ℕ) (s : System D P) → meanwhile (world.others n) s ≡ (ok tt, s)
  waits n s = ap (λ t. (ok tt, t)) (idle n s)

  abbrev cancelled : ℕ → AuthUser → ℕ → System D P → System D P
  cancelled id user correlation s = record {
    charging = s.charging;
    payments = (policy.cancel id user correlation s.payments).1;
  }

  paying_leaves :
      (id : ℕ) (user : AuthUser) (correlation : ℕ) (s : System D P)
      → (paying (policy.cancel id user correlation) s).1 ≡ cancelled id user correlation s
  unfolding paying
  paying_leaves id user correlation s = refl

  fail_session-cancels :
      (id : ℕ) (user : AuthUser) (correlation : ℕ) (reason : String) (s : System D P)
      → IsOver id s.charging
      → (fail_session policy world id user correlation reason false s).1
        ≡ cancelled id user correlation s
  unfolding fail_session
  fail_session-cancels id user correlation reason s over =
      ap (λ r. r.1)
        (bind-runs (in_transaction (fail_body id user correlation reason false (world.clock 9))) _ s
          (commits (fail_body id user correlation reason false (world.clock 9)) s
            (fail_body-leaves id user correlation reason (world.clock 9) s.charging over))
          (bind-runs (meanwhile (world.others 9)) _ s (waits 9 s) refl))
      ∙ bind-leaves (paying (policy.cancel id user correlation)) _ s
          (paying_leaves id user correlation s) λ a u. refl

  fail_and_rethrow-cancels :
      (id : ℕ) (user : AuthUser) (correlation : ℕ) (error : Failure) (s : System D P)
      → IsOver id s.charging
      → (fail_and_rethrow policy world id user correlation error s).1
        ≡ cancelled id user correlation s
  unfolding fail_and_rethrow
  fail_and_rethrow-cancels id user correlation error s over =
      ap (λ r. r.1) (bind-runs (meanwhile (world.others 8)) _ s (waits 8 s) refl)
      ∙ bind-leaves (fail_session policy world id user correlation (world.message error) false) _ s
          (fail_session-cancels id user correlation (world.message error) s over) λ a u. refl

  -- A session that is completed and whose settlement throws.
  complete_session-fails :
      (id : ℕ) (user : AuthUser) (correlation : ℕ) (meter_stop : ℤ) (s : System D P)
      {t : ChargingSession D} {d : ChargingDb D} {money : Money} {x : Failure} {q : P}
      → complete_body id user correlation meter_stop (world.clock 2) s.charging ≡ ok (t, d)
      → from_decimal
          (f.decimal_text t.total_amount)
          (read_tariff_snapshot t.tariff_snapshot).currency
          (record { allow_negative = false; maximum_amount_minor = some world.maximum_money_minor })
        ≡ ok money
      → policy.settle
          (record {
            charging_session_id = t.id;
            currency = (read_tariff_snapshot t.tariff_snapshot).currency;
          })
          money
          user
          correlation
          s.payments
        ≡ (err x, q)
      → complete_session policy world id user correlation meter_stop s
        ≡ (err x, record { charging = d; payments = q })
  unfolding complete_session
  complete_session-fails id user correlation meter_stop s {t = t} {d = d} {money = money} done
        priced refused =
      let charged : System D P = record { charging = d; payments = s.payments } in
      let currency = (read_tariff_snapshot t.tariff_snapshot).currency in
      let amount = from_decimal (f.decimal_text t.total_amount) currency (record {
        allow_negative = false;
        maximum_amount_minor = some world.maximum_money_minor;
      }) in
      bind-runs (in_transaction (complete_body id user correlation meter_stop (world.clock 2))) _ s
        (commits (complete_body id user correlation meter_stop (world.clock 2)) s done)
        (bind-runs (calls amount) _ charged (ap (λ r. (r, charged)) priced) (
          bind-runs (meanwhile (world.others 2)) _ charged (waits 2 charged) (
            bind-fails
              (paying (
                policy.settle (record { charging_session_id = t.id; currency = currency }) money
                  user correlation))
              _ charged
              (pays
                (policy.settle (record { charging_session_id = t.id; currency = currency }) money
                  user correlation)
                charged refused))))

  -- A stop whose settlement throws, with nothing else going on: the completion of the session is
  -- kept, and after it the payment of the completed session is cancelled.
  pub stop-cancels :
      (gateway : ChargerGateway D) (id : ℕ) (user : AuthUser) (correlation : ℕ) (s : System D P)
      {p : Prepared D} {t : ChargingSession D} {d d' : ChargingDb D} {meter_stop : ℤ}
      {money : Money} {x : Failure} {q : P}
      → prepare_stop id user correlation s.charging ≡ ok (p, d)
      → p.invoke_gateway ≡ true
      → gateway.stop p.session.id ≡ ok meter_stop
      → complete_body p.session.id user correlation meter_stop (world.clock 2) d ≡ ok (t, d')
      → from_decimal
          (f.decimal_text t.total_amount)
          (read_tariff_snapshot t.tariff_snapshot).currency
          (record { allow_negative = false; maximum_amount_minor = some world.maximum_money_minor })
        ≡ ok money
      → policy.settle
          (record {
            charging_session_id = t.id;
            currency = (read_tariff_snapshot t.tariff_snapshot).currency;
          })
          money
          user
          correlation
          s.payments
        ≡ (err x, q)
      → ((stop policy gateway world id user correlation s).1.charging ≡ d')
        × ((stop policy gateway world id user correlation s).1.payments
            ≡ (policy.cancel p.session.id user correlation q).1)
  unfolding stop
  stop-cancels gateway id user correlation s {p = p} {t = t} {d = d} {d' = d'}
        {meter_stop = meter_stop} {money = money} {x = x} {q = q} prepared sent answered done priced
        refused =
      let ready : System D P = record { charging = d; payments = s.payments } in
      let failed : System D P = record { charging = d'; payments = q } in
      let over =
        complete_body-IsOver p.session.id user correlation meter_stop (world.clock 2) d done in
      let charger =
        bind-runs (calls (gateway.stop p.session.id)) _ ready (ap (λ r. (r, ready)) answered) (
          bind-runs (meanwhile (world.others 1)) _ ready (waits 1 ready) (
            complete_session-fails p.session.id user correlation meter_stop ready done priced
              refused)) in
      let run =
        bind-runs (in_transaction (prepare_stop id user correlation)) _ s
          (commits (prepare_stop id user correlation) s prepared)
          (chosen p.invoke_gateway _ _ ready sent (
            try_catch-fails (stop_charger policy gateway world p.session user correlation)
              (fail_and_rethrow policy world p.session.id user correlation) ready charger refl)) in
      let left =
        ap (λ r. r.1) run ∙ fail_and_rethrow-cancels p.session.id user correlation x failed over in
      (ap (λ u. u.charging) left, ap (λ u. u.payments) left)
