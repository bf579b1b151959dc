-- ===== src/Payments/Cancellation.antt =====
-- What a cancellation has done when it returns.
use Prim.Native.String.{◌++◌}
use mathlib.Core.Path.{subst}
use ev_charge_platform.Prelude.{
  ℕ, ◌≡◌, ◌≢◌, refl, sym, ◌∙◌, ap, ◌⊎◌, inl, inr, ℕ_eq, ◌==◌, true, false, ◌||◌, if◌then◌else◌,
  Option, none, some, find, Action, ok, arith,
}
use ev_charge_platform.Prelude.Methods.{
  reads, calls, meanwhile, bind-eq-ok, branch-taken, returned-eq, ◌>>=◌, returns,
}
use ev_charge_platform.Database.{
  AuthUser, IntentStatus, IntentStatus_eq, same_intent_status_iff, WalletReservation, Db,
  ReservationStatus, ReservationStatus_eq, same_reservation_status_iff,
}
use ev_charge_platform.Wallet.{WalletDto}
use ev_charge_platform.Wallet.Settlement.{release_reserved}
use ev_charge_platform.Intents.{assert_payment_intent_transition}
use ev_charge_platform.Intents.Service.{
  PaymentIntent, IntentDb, intent_id_of, transition, find_intent, moved_to_status,
}
use ev_charge_platform.Intents.Arrival.{transition-returned}
use ev_charge_platform.Payments.Policy.{
  PaymentsDb, Surroundings, on_wallet, find_session_intent, find_session_reservation,
  assert_mock_mode, is_disabled, unchanged_columns,
}
use ev_charge_platform.Payments.Charging.{operation_for, no_money, move_intent}
use ev_charge_platform.Payments.Settling.{release_hold, is_open, cancel_intent, cancel}
use ev_charge_platform.Payments.Calls.{
  IsQuiet, on_wallet-eq-ok, on_intents-eq-ok, nothing_meanwhile, tables_of,
}

-- The payments that a cancellation closes.
abbrev pub IsOpen : IntentStatus → Type 0
IsOpen s = (s ≡ IntentStatus.created) ⊎ ((s ≡ IntentStatus.pending) ⊎ (s ≡ IntentStatus.authorized))

-- A hold of the session that is RESERVED is released, any other is left alone.
abbrev pub HoldReleased : Surroundings → ℕ → AuthUser → ℕ → Db → Db → Type 0
HoldReleased env session user correlation before after =
    ((r : WalletReservation) × (find_session_reservation session before.reservations ≡ some r)
      × (r.status ≡ ReservationStatus.reserved)
      × (wallet : WalletDto) × (release_reserved env.hash env.aborts r.id
            (operation_for user correlation ("charging-cancel:" ++ env.number_text session) no_money
              none none)
            before
          ≡ (ok wallet, after)))
    ⊎ (((find_session_reservation session before.reservations ≡ none)
          ⊎ ((r : WalletReservation) × (find_session_reservation session before.reservations
                ≡ some r)
              × (r.status ≢ ReservationStatus.reserved)))
        × (after ≡ before))

-- A payment that is open is CANCELLED, any other is left alone.
abbrev pub PaymentClosed : PaymentIntent → IntentDb → IntentDb → Type 0
PaymentClosed intent before after =
    (IsOpen intent.status
      × (i : PaymentIntent) × (find intent_id_of intent.id after.intents ≡ some i)
      × (i.status ≡ IntentStatus.cancelled)
      × (i.captured_amount_minor ≡ intent.captured_amount_minor))
    ⊎ ((intent.status ≢ IntentStatus.created)
        × (intent.status ≢ IntentStatus.pending)
        × (intent.status ≢ IntentStatus.authorized)
        × (after ≡ before))

module _ (env : Surroundings) (quiet : IsQuiet env) (session : ℕ) (user : AuthUser)
    (correlation : ℕ) where
  abbrev releasing : WalletReservation → Action Db WalletDto
  releasing r = release_reserved env.hash env.aborts r.id (
      operation_for user correlation ("charging-cancel:" ++ env.number_text session) no_money none
        none)

  left_alone :
      (r : WalletReservation)
      → (r.status == ReservationStatus.reserved) ≡ false
      → r.status ≢ ReservationStatus.reserved
  left_alone r other g =
      cc (other, (same_reservation_status_iff r.status ReservationStatus.reserved).1 g)

  release_hold-HoldReleased :
      (found : Option WalletReservation) (s : PaymentsDb) {u : Unit {0}} {t : PaymentsDb}
      → find_session_reservation session s.wallet.reservations ≡ found
      → release_hold env found session user correlation s ≡ (ok u, t)
      → HoldReleased env session user correlation s.wallet t.wallet × (t.intents ≡ s.intents)
  unfolding release_hold
  release_hold-HoldReleased none s e h =
      let same = sym (ap tables_of h) in
      (inr (inl e, ap (λ (d : PaymentsDb). d.wallet) same), ap (λ (d : PaymentsDb). d.intents) same)
  release_hold-HoldReleased (some r) s e h =
      elim (branch-taken (r.status == ReservationStatus.reserved) _ _ s h) [
        | inl (there, run) ↦
            let (w, s1, released, rest) = bind-eq-ok (on_wallet (releasing r)) _ s run in
            let (books, e1, at1) = on_wallet-eq-ok (releasing r) s released in
            let same : _ ≡ record s { wallet = books } = sym (ap tables_of rest) ∙ at1 in
            (
              inl (
                r,
                e,
                (same_reservation_status_iff r.status ReservationStatus.reserved).0 there,
                w,
                e1 ∙ ap (λ (d : PaymentsDb). (ok w, d.wallet)) (sym same),
              ),
              ap (λ (d : PaymentsDb). d.intents) same,
            )
        | inr (other, rest) ↦
            let same = sym (ap tables_of rest) in
            (
              inr (inr (r, e, left_alone r other), ap (λ (d : PaymentsDb). d.wallet) same),
              ap (λ (d : PaymentsDb). d.intents) same,
            )
      ]

  abbrev closing : PaymentIntent → Action IntentDb PaymentIntent
  closing intent = transition env.between intent.id IntentStatus.cancelled user unchanged_columns

  open_cases :
      (s : IntentStatus)
      → (s == IntentStatus.created || s == IntentStatus.pending || s == IntentStatus.authorized)
        ≡ true
      → IsOpen s
  open_cases s h = ground (
    arith,
    same_intent_status_iff s IntentStatus.created,
    same_intent_status_iff s IntentStatus.pending,
    same_intent_status_iff s IntentStatus.authorized,
  )

  closed_cases :
      (s : IntentStatus)
      → (s == IntentStatus.created || s == IntentStatus.pending || s == IntentStatus.authorized)
        ≡ false
      → (s ≢ IntentStatus.created) × (s ≢ IntentStatus.pending) × (s ≢ IntentStatus.authorized)
  closed_cases s h = (λ e. cc (rw e at h), λ e. cc (rw e at h), λ e. cc (rw e at h))

  may_cancel :
      (s : IntentStatus)
      → IsOpen s
      → (assert_payment_intent_transition s IntentStatus.cancelled ≡ ok tt)
        × ((s == IntentStatus.cancelled) ≡ false)
  unfolding assert_payment_intent_transition
  may_cancel s (inl e) = rw e (refl, refl)
  may_cancel s (inr (inl e)) = rw e (refl, refl)
  may_cancel s (inr (inr e)) = rw e (refl, refl)

  close-PaymentClosed :
      (intent : PaymentIntent) (s : PaymentsDb) {u : Unit {0}} {t : PaymentsDb}
      → find_intent intent.id user s.intents.intents ≡ some intent
      → (if is_open env intent
            then (move_intent env intent.id IntentStatus.cancelled user none none none >>= λ _.
                returns tt)
            else returns tt)
          s
        ≡ (ok u, t)
      → PaymentClosed intent s.intents t.intents × (t.wallet ≡ s.wallet)
  unfolding moved_to_status
  close-PaymentClosed intent s own h = elim (branch-taken (is_open env intent) _ _ s h) [
    | inl (is_so, run) ↦
        let (row, s1, moved, rest) =
          bind-eq-ok (move_intent env intent.id IntentStatus.cancelled user none none none) _ s
            run in
        let (rows, made, at1) = on_intents-eq-ok (closing intent) s moved in
        let same : _ ≡ record s { intents = rows } = sym (ap tables_of rest) ∙ at1 in
        let still_open = open_cases intent.status is_so in
        let (accepted, elsewhere) = may_cancel intent.status still_open in
        let (is_row, stored) =
          transition-returned env.between intent.id IntentStatus.cancelled user unchanged_columns
            s.intents intent quiet.inside own accepted elsewhere made in
        (
          inl (
            still_open,
            row,
            ap (λ (d : PaymentsDb). find intent_id_of intent.id d.intents.intents) same ∙ stored,
            ap (λ (i : PaymentIntent). i.status) is_row,
            ap (λ (i : PaymentIntent). i.captured_amount_minor) is_row,
          ),
          ap (λ (d : PaymentsDb). d.wallet) same,
        )
    | inr (closed, rest) ↦
        let same = sym (ap tables_of rest) in
        let (c, p, a) = closed_cases intent.status closed in
        (
          inr (c, p, a, ap (λ (d : PaymentsDb). d.intents) same),
          ap (λ (d : PaymentsDb). d.wallet) same,
        )
  ]

  cancel_intent-cancels :
      (intent : PaymentIntent) (s : PaymentsDb) {u : Unit {0}} {t : PaymentsDb}
      → find_intent intent.id user s.intents.intents ≡ some intent
      → cancel_intent env (some intent) session user correlation s ≡ (ok u, t)
      → HoldReleased env session user correlation s.wallet t.wallet
        × PaymentClosed intent s.intents t.intents
  unfolding cancel_intent
  cancel_intent-cancels intent s {u} {t} own h =
      let (found, s1, read, rest) =
        bind-eq-ok (reads λ d. find_session_reservation session d.wallet.reservations) _ s h in
      let (it, same1) = returned-eq read in
      let (u2, s2, released, rest2) =
        bind-eq-ok (release_hold env found session user correlation) _ s1 rest in
      let (wallets, intents) =
        release_hold-HoldReleased found s it
          (ap (release_hold env found session user correlation) (sym same1) ∙ released) in
      let (u3, s3, waited, rest3) = bind-eq-ok (meanwhile (env.others 1)) _ s2 rest2 in
      let same3 = nothing_meanwhile quiet 1 s2 waited in
      let rows : s3.intents ≡ s.intents = ap (λ (d : PaymentsDb). d.intents) same3 ∙ intents in
      let (closed, kept) =
        close-PaymentClosed intent s3
          (ap (λ (d : IntentDb). find_intent intent.id user d.intents) rows ∙ own) rest3 in
      let books = kept ∙ ap (λ (d : PaymentsDb). d.wallet) same3 in
      (
        subst (HoldReleased env session user correlation s.wallet) (sym books) wallets,
        subst (λ d. PaymentClosed intent d t.intents) rows closed,
      )

  -- A cancellation that nobody disturbs and that returns, of a session with a payment that is found
  -- under its number, where payments are not disabled. A hold of the session that is RESERVED is
  -- released; where there is none, or it is not RESERVED, the wallet is left alone. A payment that is
  -- CREATED, PENDING or AUTHORIZED is CANCELLED with its captured amount kept; another is left alone.
  pub cancel-closes :
      (intent : PaymentIntent) (s : PaymentsDb) {u : Unit {0}} {t : PaymentsDb}
      → is_disabled env.mode ≡ false
      → find_session_intent session user s.intents.intents ≡ some intent
      → find_intent intent.id user s.intents.intents ≡ some intent
      → cancel env session user correlation s ≡ (ok u, t)
      → HoldReleased env session user correlation s.wallet t.wallet
        × PaymentClosed intent s.intents t.intents
  unfolding cancel
  cancel-closes intent s enabled found own h = elim (branch-taken (is_disabled env.mode) _ _ s h) [
    | inl (off, _) ↦ cc (off, enabled)
    | inr (_, run) ↦
        let (u1, s1, mock, rest) = bind-eq-ok (calls (assert_mock_mode env.mode)) _ s run in
        let (read, s2, session_read, more) =
          bind-eq-ok (reads λ d. find_session_intent session user d.intents.intents) _ s1 rest in
        let (it, same2) = returned-eq session_read in
        let (u3, s3, waited, last) = bind-eq-ok (meanwhile (env.others 0)) _ s2 more in
        let same1 : s1 ≡ s = sym (ap tables_of mock) in
        let at3 : s3 ≡ s = nothing_meanwhile quiet 0 s2 waited ∙ same2 ∙ same1 in
        let is_intent : read ≡ some intent =
          sym it
          ∙ ap (λ (d : PaymentsDb). find_session_intent session user d.intents.intents) same1
          ∙ found in
        cancel_intent-cancels intent s own (
          ap (λ o. cancel_intent env o session user correlation s) (sym is_intent)
          ∙ ap (cancel_intent env read session user correlation) (sym at3)
          ∙ last)
  ]
