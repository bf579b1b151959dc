-- ===== src/Intents/Paths.antt =====
-- What the state machine of a payment allows over any number of steps.
use ev_charge_platform.Prelude.{◌≡◌, refl, ◌∙◌, ◌≢◌, true, false, ok, arith}
use ev_charge_platform.Database.{IntentStatus, IntentStatus_eq, same_intent_status_iff}
use ev_charge_platform.Intents.{assert_payment_intent_transition, is_terminal_payment_intent_status}

-- A status and one that a run of accepted transitions leads to.
pub data Reaches : IntentStatus → IntentStatus → Type 0 where
  stay : (s : IntentStatus) → Reaches s s
  then_to :
      (s t u : IntentStatus)
      → assert_payment_intent_transition s t ≡ ok tt
      → Reaches t u
      → Reaches s u

terminal_step :
    (s t : IntentStatus)
    → is_terminal_payment_intent_status s ≡ true
    → assert_payment_intent_transition s t ≡ ok tt
    → t ≡ s
unfolding assert_payment_intent_transition is_terminal_payment_intent_status
terminal_step IntentStatus.cancelled t h g =
    ground (arith, same_intent_status_iff IntentStatus.cancelled t)
terminal_step IntentStatus.expired t h g =
    ground (arith, same_intent_status_iff IntentStatus.expired t)
terminal_step IntentStatus.refunded t h g =
    ground (arith, same_intent_status_iff IntentStatus.refunded t)
terminal_step IntentStatus.created t h g = cc
terminal_step IntentStatus.pending t h g = cc
terminal_step IntentStatus.requires_action t h g = cc
terminal_step IntentStatus.authorized t h g = cc
terminal_step IntentStatus.processing t h g = cc
terminal_step IntentStatus.captured t h g = cc
terminal_step IntentStatus.failed t h g = cc
terminal_step IntentStatus.requires_review t h g = cc
terminal_step IntentStatus.partially_refunded t h g = cc

-- From a status that `isTerminalPaymentIntentStatus` names, a run of accepted transitions leads
-- nowhere else.
pub terminal-stays :
    {s t : IntentStatus} → is_terminal_payment_intent_status s ≡ true → Reaches s t → t ≡ s
terminal-stays h (stay s) = refl
terminal-stays h (then_to s t u step rest) =
    let e = terminal_step s t h step in terminal-stays (rw e h) rest ∙ e

-- A status that is not terminal can still be left: some other status is accepted after it.
pub open-leaves :
    (s : IntentStatus)
    → is_terminal_payment_intent_status s ≡ false
    → (t : IntentStatus) × (t ≢ s) × (assert_payment_intent_transition s t ≡ ok tt)
unfolding assert_payment_intent_transition is_terminal_payment_intent_status
open-leaves IntentStatus.created h = (IntentStatus.pending, λ e. cc e, refl)
open-leaves IntentStatus.pending h = (IntentStatus.authorized, λ e. cc e, refl)
open-leaves IntentStatus.requires_action h = (IntentStatus.pending, λ e. cc e, refl)
open-leaves IntentStatus.authorized h = (IntentStatus.processing, λ e. cc e, refl)
open-leaves IntentStatus.processing h = (IntentStatus.captured, λ e. cc e, refl)
open-leaves IntentStatus.captured h = (IntentStatus.refunded, λ e. cc e, refl)
open-leaves IntentStatus.cancelled h = cc
open-leaves IntentStatus.expired h = cc
open-leaves IntentStatus.failed h = (IntentStatus.pending, λ e. cc e, refl)
open-leaves IntentStatus.requires_review h = (IntentStatus.captured, λ e. cc e, refl)
open-leaves IntentStatus.refunded h = cc
open-leaves IntentStatus.partially_refunded h = (IntentStatus.refunded, λ e. cc e, refl)

created_step :
    (s : IntentStatus)
    → assert_payment_intent_transition s IntentStatus.created ≡ ok tt
    → s ≡ IntentStatus.created
unfolding assert_payment_intent_transition
created_step IntentStatus.created h = refl
created_step IntentStatus.pending h = cc
created_step IntentStatus.requires_action h = cc
created_step IntentStatus.authorized h = cc
created_step IntentStatus.processing h = cc
created_step IntentStatus.captured h = cc
created_step IntentStatus.cancelled h = cc
created_step IntentStatus.expired h = cc
created_step IntentStatus.failed h = cc
created_step IntentStatus.requires_review h = cc
created_step IntentStatus.refunded h = cc
created_step IntentStatus.partially_refunded h = cc

-- No run of accepted transitions comes back to CREATED.
pub created-first : {s : IntentStatus} → Reaches s IntentStatus.created → s ≡ IntentStatus.created
created-first (stay s) = refl
created-first (then_to s t u step rest) = created_step s (rw (created-first rest) at step)
