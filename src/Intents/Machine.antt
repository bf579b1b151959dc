-- ===== src/Intents/Machine.antt =====
-- payment-intent-state-machine.ts
use ev_charge_platform.Prelude.{
  Bool, ◌||◌, List, [], ◌∷◌, any, ◌==◌, Result, ok, err, invalid_payment_intent_transition,
  if◌then◌else◌,
}
use ev_charge_platform.Database.{IntentStatus, IntentStatus_eq}

unfoldable pub transitions : IntentStatus → List IntentStatus
transitions IntentStatus.created =
    IntentStatus.pending ∷ IntentStatus.cancelled ∷ IntentStatus.failed ∷ []
transitions IntentStatus.pending =
    IntentStatus.requires_action ∷ IntentStatus.authorized ∷ IntentStatus.processing
    ∷ IntentStatus.captured ∷ IntentStatus.cancelled ∷ IntentStatus.expired ∷ IntentStatus.failed
    ∷ IntentStatus.requires_review ∷ []
transitions IntentStatus.requires_action =
    IntentStatus.pending ∷ IntentStatus.processing ∷ IntentStatus.captured ∷ IntentStatus.cancelled
    ∷ IntentStatus.expired ∷ IntentStatus.failed ∷ []
transitions IntentStatus.authorized =
    IntentStatus.processing ∷ IntentStatus.captured ∷ IntentStatus.cancelled ∷ IntentStatus.failed
    ∷ IntentStatus.requires_review ∷ []
transitions IntentStatus.processing =
    IntentStatus.captured ∷ IntentStatus.failed ∷ IntentStatus.requires_review ∷ []
transitions IntentStatus.captured =
    IntentStatus.partially_refunded ∷ IntentStatus.refunded ∷ IntentStatus.requires_review ∷ []
transitions IntentStatus.cancelled = []
transitions IntentStatus.expired = []
transitions IntentStatus.failed = IntentStatus.pending ∷ IntentStatus.requires_review ∷ []
transitions IntentStatus.requires_review =
    IntentStatus.processing ∷ IntentStatus.captured ∷ IntentStatus.failed
    ∷ IntentStatus.partially_refunded ∷ IntentStatus.refunded ∷ []
transitions IntentStatus.refunded = []
transitions IntentStatus.partially_refunded =
    IntentStatus.refunded ∷ IntentStatus.requires_review ∷ []

-- `transitions[current].includes(target)`
unfoldable pub includes : List IntentStatus → IntentStatus → Bool
includes list target = any (λ s. s == target) list

unfoldable pub assert_payment_intent_transition : IntentStatus → IntentStatus → Result (Unit {0})
unfolding transitions includes
assert_payment_intent_transition current target =
    if current == target
    then ok tt
    else if includes (transitions current) target
    then ok tt
    else err invalid_payment_intent_transition

unfoldable pub is_terminal_payment_intent_status : IntentStatus → Bool
is_terminal_payment_intent_status status =
    status == IntentStatus.cancelled
    || status == IntentStatus.expired
    || status == IntentStatus.refunded

unfoldable pub requires_payment_reconciliation : IntentStatus → Bool
requires_payment_reconciliation status = status == IntentStatus.requires_review
