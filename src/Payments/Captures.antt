-- ===== src/Payments/Captures.antt =====
-- What a settlement has done when it returns.
use Prim.Native.String.{◌++◌}
use ev_charge_platform.Prelude.{
  ℕ, ◌≡◌, refl, sym, ◌∙◌, ap, inl, inr, ℕ_eq, false, Option, none, some, find, Result, Action, ok,
  not_found, arith,
}
use ev_charge_platform.Prelude.Methods.{
  reads, calls, meanwhile, bind-eq-ok, branch-taken, returned-eq, ◌>>◌,
}
use ev_charge_platform.Money.{Money}
use ev_charge_platform.Database.{
  AuthUser, IntentStatus, IntentStatus_eq, WalletReservation, Db, ReservationStatus_eq,
}
use ev_charge_platform.Wallet.{WalletDto}
use ev_charge_platform.Wallet.Settlement.{capture_reserved}
use ev_charge_platform.Intents.{assert_payment_intent_transition}
use ev_charge_platform.Intents.Service.{
  PaymentIntent, IntentDb, intent_id_of, IntentChange, transition, find_intent, moved_to_status,
}
use ev_charge_platform.Intents.Arrival.{transition-returned}
use ev_charge_platform.Sessions.Platform.{ChargingFinancialContext}
use ev_charge_platform.Payments.Policy.{
  PaymentsDb, Surroundings, on_wallet, or_failure, find_session_intent, find_session_reservation,
  assert_mock_mode, is_disabled, unchanged_columns,
}
use ev_charge_platform.Payments.Charging.{operation_for, move_intent, read_config}
use ev_charge_platform.Payments.Settling.{
  session_intent, exceeds, capture_intent, settle_authorized, settle_intent, settle,
}
use ev_charge_platform.Payments.Calls.{
  IsQuiet, returned, on_wallet-eq-ok, on_intents-eq-ok, required, nothing_meanwhile, tables_of,
}
use ev_charge_platform.Payments.Limits.{IsWithin, settle_authorized-IsWithin, read_config-eq-ok}

-- The tables when the payment of a session is captured, before the receipt is issued: the wallet has
-- captured the amount out of the session's reservation, the intent is CAPTURED with that amount, and
-- what the method returns is what the receipt and the automatic recharge make of those tables.
pub record IsCaptured (env : Surroundings) (context : ChargingFinancialContext) (amount : Money)
    (user : AuthUser) (correlation : ℕ) (intent : PaymentIntent) (s : PaymentsDb)
    (end : Result (Unit {0}) × PaymentsDb) : Type 0 where
  pub reservation : WalletReservation
  pub held :
      find_session_reservation context.charging_session_id s.wallet.reservations ≡ some reservation
  pub wallet : WalletDto
  pub books : Db
  pub captured :
      capture_reserved env.hash env.aborts reservation.id
        (operation_for user correlation
          ("charging-settlement:" ++ env.number_text context.charging_session_id)
          amount
          none
          none)
        s.wallet
      ≡ (ok wallet, books)
  pub intents : IntentDb
  pub row : PaymentIntent
  pub stored : find intent_id_of intent.id intents.intents ≡ some row
  pub status : row.status ≡ IntentStatus.captured
  pub amount_captured : row.captured_amount_minor ≡ amount.amount_minor
  pub same_authorized : row.authorized_amount_minor ≡ intent.authorized_amount_minor
  pub ends :
      (env.issue_receipt context.charging_session_id row.id amount user correlation
          >> env.evaluate_auto_recharge user correlation)
        (record s { wallet = books; intents = intents })
      ≡ end

module _ (env : Surroundings) (quiet : IsQuiet env) (context : ChargingFinancialContext)
    (amount : Money) (user : AuthUser) (correlation : ℕ) (intent : PaymentIntent) where
  abbrev with_books : Db → PaymentsDb → PaymentsDb
  with_books books d = record d { wallet = books }

  abbrev with_rows : IntentDb → PaymentsDb → PaymentsDb
  with_rows rows d = record d { intents = rows }

  abbrev capture_columns : IntentChange
  capture_columns = record unchanged_columns { captured_amount_minor = some amount.amount_minor }

  abbrev moving : Action IntentDb PaymentIntent
  moving = transition env.between intent.id IntentStatus.captured user capture_columns

  abbrev ending : ℕ → Action PaymentsDb (Unit {0})
  ending id =
      env.issue_receipt context.charging_session_id id amount user correlation
      >> env.evaluate_auto_recharge user correlation

  capture_intent-IsCaptured :
      (s : PaymentsDb) {u : Unit {0}} {t : PaymentsDb}
      → find_intent intent.id user s.intents.intents ≡ some intent
      → intent.status ≡ IntentStatus.authorized
      → capture_intent env intent context amount user correlation s ≡ (ok u, t)
      → IsCaptured env context amount user correlation intent s (ok u, t)
  unfolding capture_intent assert_payment_intent_transition moved_to_status
  capture_intent-IsCaptured s own authorized h =
      let (found, s1, read, rest) =
        bind-eq-ok
          (reads λ d. find_session_reservation context.charging_session_id d.wallet.reservations) _
          s h in
      let (it, same1) = returned-eq read in
      let (r, s2, needed, rest2) = bind-eq-ok (calls (or_failure not_found found)) _ s1 rest in
      let (there, same2) = returned not_found found s1 needed in
      let at2 = same2 ∙ same1 in
      let (w, s3, taken, rest3) =
        bind-eq-ok
          (on_wallet (
            capture_reserved env.hash env.aborts r.id (
              operation_for user correlation
                ("charging-settlement:" ++ env.number_text context.charging_session_id) amount none
                none)))
          _ s2 rest2 in
      let (books, captured, at3) =
        on_wallet-eq-ok
          (capture_reserved env.hash env.aborts r.id (
            operation_for user correlation
              ("charging-settlement:" ++ env.number_text context.charging_session_id) amount none
              none))
          s2 taken in
      let (u4, s4, waited, rest4) = bind-eq-ok (meanwhile (env.others 1)) _ s3 rest3 in
      let at4 : s4 ≡ record s { wallet = books } =
        nothing_meanwhile quiet 1 s3 waited ∙ at3 ∙ ap (with_books books) at2 in
      let (row, s5, moved, rest5) =
        bind-eq-ok
          (move_intent env intent.id IntentStatus.captured user none (some amount.amount_minor)
            none)
          _ s4 rest4 in
      let (intents, run, at5) = on_intents-eq-ok moving s4 moved in
      let (u6, s6, waited2, rest6) = bind-eq-ok (meanwhile (env.others 2)) _ s5 rest5 in
      let (is_row, stored) =
        transition-returned env.between intent.id IntentStatus.captured user capture_columns
          s.intents intent quiet.inside own (rw authorized refl) (rw authorized refl)
          (ap (λ (d : PaymentsDb). moving d.intents) (sym at4) ∙ run) in
      let at6 : s6 ≡ record s { wallet = books; intents = intents } =
        nothing_meanwhile quiet 2 s5 waited2 ∙ at5 ∙ ap (with_rows intents) at4 in
      record {
        reservation = r;
        held = it ∙ there;
        wallet = w;
        books = books;
        captured =
            ap
              (λ (d : PaymentsDb).
                capture_reserved env.hash env.aborts r.id
                  (operation_for user correlation
                    ("charging-settlement:" ++ env.number_text context.charging_session_id) amount
                    none none)
                  d.wallet)
              (sym at2)
            ∙ captured;
        intents = intents;
        row = row;
        stored = stored;
        status = ap (λ (i : PaymentIntent). i.status) is_row;
        amount_captured = ap (λ (i : PaymentIntent). i.captured_amount_minor) is_row;
        same_authorized = ap (λ (i : PaymentIntent). i.authorized_amount_minor) is_row;
        ends = ap (ending row.id) (sym at6) ∙ rest6;
      }

  on_authorized :
      (s : PaymentsDb)
      → intent.status ≡ IntentStatus.authorized
      → settle_intent env intent context amount user correlation s
        ≡ settle_authorized env intent context amount user correlation s
  unfolding settle_intent
  on_authorized s authorized = rw (settle_intent, authorized) refl

  -- A settlement that returns has passed the limits.
  settle_authorized-captures :
      (s : PaymentsDb) {u : Unit {0}} {t : PaymentsDb}
      → settle_authorized env intent context amount user correlation s ≡ (ok u, t)
      → capture_intent env intent context amount user correlation s ≡ (ok u, t)
  unfolding settle_authorized
  settle_authorized-captures s h =
      let (config, s1, read, rest) =
        bind-eq-ok (read_config env user.tenant_id amount.currency) _ s h in
      let (_, same) = read_config-eq-ok env user.tenant_id amount s read in
      elim (branch-taken (exceeds env amount intent config) _ _ s1 rest) [
        | inl (large, reviewed) ↦
            let (moved, s2, e, thrown) =
              bind-eq-ok
                (move_intent env intent.id IntentStatus.requires_review user none none none) _ s1
                reviewed in
            cc (ap (λ (p : Result (Unit {0}) × PaymentsDb). p.0) thrown)
        | inr (fits, captured) ↦
            ap (capture_intent env intent context amount user correlation) (sym same) ∙ captured
      ]

  settle_read :
      (s : PaymentsDb) {u : Unit {0}} {t : PaymentsDb}
      → find_intent intent.id user s.intents.intents ≡ some intent
      → intent.status ≡ IntentStatus.authorized
      → settle_intent env intent context amount user correlation s ≡ (ok u, t)
      → IsWithin amount intent user.tenant_id s
        × IsCaptured env context amount user correlation intent s (ok u, t)
  settle_read s own authorized h =
      let run = sym (on_authorized s authorized) ∙ h in
      (
        settle_authorized-IsWithin env intent context amount user correlation s run,
        capture_intent-IsCaptured s own authorized (settle_authorized-captures s run),
      )

  same_found :
      {a b : Option PaymentIntent} {read : PaymentIntent}
      → a ≡ b
      → a ≡ some read
      → b ≡ some intent
      → read ≡ intent
  same_found e h k = ground (arith, sym h ∙ e ∙ k)

  -- A settlement that nobody disturbs and that returns, of a session whose payment is AUTHORIZED and
  -- found under its number, where payments are not disabled: the amount is at most what was
  -- authorized and at most what the tenant allows for one session; the wallet has captured it out of
  -- the session's reservation; the payment is CAPTURED with just that amount; and the method returns
  -- what the receipt and the automatic recharge make of those tables.
  pub settle-captures :
      (s : PaymentsDb) {u : Unit {0}} {t : PaymentsDb}
      → is_disabled env.mode ≡ false
      → find_session_intent context.charging_session_id user s.intents.intents ≡ some intent
      → find_intent intent.id user s.intents.intents ≡ some intent
      → intent.status ≡ IntentStatus.authorized
      → settle env context amount user correlation s ≡ (ok u, t)
      → IsWithin amount intent user.tenant_id s
        × IsCaptured env context amount user correlation intent s (ok u, t)
  unfolding settle session_intent
  settle-captures s enabled found own authorized h =
      elim (branch-taken (is_disabled env.mode) _ _ s h) [
        | inl (off, _) ↦ cc (off, enabled)
        | inr (_, run) ↦
            let (u1, s1, mock, rest) = bind-eq-ok (calls (assert_mock_mode env.mode)) _ s run in
            let (read, s2, session, more) =
              bind-eq-ok (session_intent env context.charging_session_id user) _ s1 rest in
            let (there, same2) =
              required not_found
                (λ d. find_session_intent context.charging_session_id user d.intents.intents) s1
                session in
            let (u3, s3, waited, last) = bind-eq-ok (meanwhile (env.others 0)) _ s2 more in
            let same1 : s1 ≡ s = sym (ap tables_of mock) in
            let at3 : s3 ≡ s = nothing_meanwhile quiet 0 s2 waited ∙ same2 ∙ same1 in
            let it =
              same_found
                (ap
                  (λ (d : PaymentsDb).
                    find_session_intent context.charging_session_id user d.intents.intents)
                  same1)
                there found in
            settle_read s own authorized (
              ap (λ i. settle_intent env i context amount user correlation s) (sym it)
              ∙ ap (settle_intent env read context amount user correlation) (sym at3)
              ∙ last)
      ]
