-- ===== src/Charging/Machine.antt =====
-- charging-session-state-machine.ts
use ev_charge_platform.Prelude.{
  Bool, not, List, [], ◌∷◌, any, length, nat_eq, ◌==◌, Result, ok, err, invalid_session_transition,
  if◌then◌else◌,
}
use ev_charge_platform.Database.{SessionStatus, SessionStatus_eq}

unfoldable pub transitions : SessionStatus → List SessionStatus
transitions SessionStatus.pending =
    SessionStatus.authorized ∷ SessionStatus.failed ∷ SessionStatus.cancelled ∷ []
transitions SessionStatus.authorized =
    SessionStatus.starting ∷ SessionStatus.failed ∷ SessionStatus.cancelled ∷ []
transitions SessionStatus.starting =
    SessionStatus.charging ∷ SessionStatus.failed ∷ SessionStatus.cancelled ∷ []
transitions SessionStatus.charging = SessionStatus.stopping ∷ SessionStatus.failed ∷ []
transitions SessionStatus.stopping = SessionStatus.completed ∷ SessionStatus.failed ∷ []
transitions SessionStatus.completed = []
transitions SessionStatus.failed = []
transitions SessionStatus.cancelled = []

unfoldable pub includes : List SessionStatus → SessionStatus → Bool
includes list target = any (λ s. s == target) list

unfoldable pub assert_charging_session_transition :
    SessionStatus → SessionStatus → Result (Unit {0})
unfolding transitions includes
assert_charging_session_transition from to =
    if from == to
    then ok tt
    else if includes (transitions from) to
    then ok tt
    else err invalid_session_transition

unfoldable pub is_terminal_charging_session_state : SessionStatus → Bool
unfolding transitions
is_terminal_charging_session_state status = nat_eq (length (transitions status)) 0

unfoldable pub is_active_charging_session_state : SessionStatus → Bool
unfolding is_terminal_charging_session_state
is_active_charging_session_state status = not (is_terminal_charging_session_state status)
