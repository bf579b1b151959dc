-- ===== src/Charging/Paths.antt =====
-- What the state machine of a session allows over any number of steps.
use ev_charge_platform.Prelude.{
  ℕ, ◌+◌, ◌≤◌, ◌<◌, ◌≡◌, refl, ◌≢◌, ◌↔◌, ◌⊎◌, inl, inr, true, false, ok, arith,
}
use ev_charge_platform.Database.{SessionStatus, SessionStatus_eq, same_session_status_iff}
use ev_charge_platform.Charging.{
  assert_charging_session_transition, is_terminal_charging_session_state,
  is_active_charging_session_state,
}

-- A session that has moved through `n` changes of status, each accepted.
pub data Run : ℕ → SessionStatus → SessionStatus → Type 0 where
  here : (s : SessionStatus) → Run 0 s s
  change :
      (n : ℕ) (s t u : SessionStatus)
      → s ≢ t
      → assert_charging_session_transition s t ≡ ok tt
      → Run n t u
      → Run (n + 1) s u

pub Run-then : {n m : ℕ} {s t u : SessionStatus} → Run n s t → Run m t u → Run (n + m) s u
Run-then {m = m} (here _) r = let e : 0 + m ≡ m = omega arith in rw e r
Run-then {m = m} (change n s t u d h q) r =
    let e : n + m + 1 ≡ n + 1 + m = omega arith in rw e at (change (n + m) s t _ d h (Run-then q r))

-- How far a session has come.
abbrev stage : SessionStatus → ℕ
stage SessionStatus.pending = 0
stage SessionStatus.authorized = 1
stage SessionStatus.starting = 2
stage SessionStatus.charging = 3
stage SessionStatus.stopping = 4
stage SessionStatus.completed = 5
stage SessionStatus.failed = 5
stage SessionStatus.cancelled = 5

stage-grows :
    (s t : SessionStatus)
    → s ≢ t
    → assert_charging_session_transition s t ≡ ok tt
    → stage s < stage t
unfolding assert_charging_session_transition
stage-grows s t d h = ground (arith, same_session_status_iff s t)

stage-Run : {n : ℕ} {s t : SessionStatus} → Run n s t → n + stage s ≤ stage t
stage-Run (here s) = omega arith
stage-Run (change n s t u d h r) = omega (arith, stage-grows s t d h, stage-Run r)

stage-bound : (s : SessionStatus) → stage s ≤ 5
stage-bound s = ground arith

-- A session changes its status at most five times, whatever the calls on it.
pub Run-IsBounded : {n : ℕ} {s t : SessionStatus} → Run n s t → n ≤ 5
Run-IsBounded {t = t} r = omega (arith, stage-Run r, stage-bound t)

-- The steps from a stage to COMPLETED; a session that has ended otherwise never gets there.
abbrev left : SessionStatus → ℕ
left SessionStatus.pending = 5
left SessionStatus.authorized = 4
left SessionStatus.starting = 3
left SessionStatus.charging = 2
left SessionStatus.stopping = 1
left SessionStatus.completed = 0
left SessionStatus.failed = 6
left SessionStatus.cancelled = 6

left-step :
    (s t : SessionStatus)
    → s ≢ t
    → assert_charging_session_transition s t ≡ ok tt
    → left s ≤ left t + 1
unfolding assert_charging_session_transition
left-step s t d h = ground (arith, same_session_status_iff s t)

left-Run : {n : ℕ} {s : SessionStatus} → Run n s SessionStatus.completed → left s ≤ n
left-Run (here _) = omega arith
left-Run (change n s t _ d h r) = omega (arith, left-step s t d h, left-Run r)

-- A session that is completed after it was pending has been through all five stages.
pub completed-stages : {n : ℕ} → Run n SessionStatus.pending SessionStatus.completed → n ≡ 5
completed-stages r = omega (arith, left-Run r, Run-IsBounded r)

-- The states in which a charge is over.
abbrev pub IsOver : SessionStatus → Type 0
IsOver s =
    (s ≡ SessionStatus.completed) ⊎ ((s ≡ SessionStatus.failed) ⊎ (s ≡ SessionStatus.cancelled))

-- The states without a next one in the table of transitions are exactly COMPLETED, FAILED and
-- CANCELLED, and those are exactly the ones that are not active.
pub ended_iff :
    (s : SessionStatus)
    → ((is_terminal_charging_session_state s ≡ true) ↔ IsOver s)
      × ((is_active_charging_session_state s ≡ false) ↔ IsOver s)
unfolding is_terminal_charging_session_state is_active_charging_session_state
ended_iff SessionStatus.completed = ((λ h. inl refl, λ h. refl), (λ h. inl refl, λ h. refl))
ended_iff SessionStatus.failed =
    ((λ h. inr (inl refl), λ h. refl), (λ h. inr (inl refl), λ h. refl))
ended_iff SessionStatus.cancelled =
    ((λ h. inr (inr refl), λ h. refl), (λ h. inr (inr refl), λ h. refl))
ended_iff SessionStatus.pending = (
  (λ h. cc h, λ h. elim h [ inl e ↦ cc e | inr (inl e) ↦ cc e | inr (inr e) ↦ cc e ]),
  (λ h. cc h, λ h. elim h [ inl e ↦ cc e | inr (inl e) ↦ cc e | inr (inr e) ↦ cc e ]),
)
ended_iff SessionStatus.authorized = (
  (λ h. cc h, λ h. elim h [ inl e ↦ cc e | inr (inl e) ↦ cc e | inr (inr e) ↦ cc e ]),
  (λ h. cc h, λ h. elim h [ inl e ↦ cc e | inr (inl e) ↦ cc e | inr (inr e) ↦ cc e ]),
)
ended_iff SessionStatus.starting = (
  (λ h. cc h, λ h. elim h [ inl e ↦ cc e | inr (inl e) ↦ cc e | inr (inr e) ↦ cc e ]),
  (λ h. cc h, λ h. elim h [ inl e ↦ cc e | inr (inl e) ↦ cc e | inr (inr e) ↦ cc e ]),
)
ended_iff SessionStatus.charging = (
  (λ h. cc h, λ h. elim h [ inl e ↦ cc e | inr (inl e) ↦ cc e | inr (inr e) ↦ cc e ]),
  (λ h. cc h, λ h. elim h [ inl e ↦ cc e | inr (inl e) ↦ cc e | inr (inr e) ↦ cc e ]),
)
ended_iff SessionStatus.stopping = (
  (λ h. cc h, λ h. elim h [ inl e ↦ cc e | inr (inl e) ↦ cc e | inr (inr e) ↦ cc e ]),
  (λ h. cc h, λ h. elim h [ inl e ↦ cc e | inr (inl e) ↦ cc e | inr (inr e) ↦ cc e ]),
)

-- An active session can always be failed, and of the terminal ones only a failed one accepts that.
pub active-fails :
    (s : SessionStatus)
    → (is_active_charging_session_state s ≡ true) ↔ (
        (s ≢ SessionStatus.failed)
        × (assert_charging_session_transition s SessionStatus.failed ≡ ok tt))
unfolding assert_charging_session_transition is_active_charging_session_state
active-fails s = ground (arith, same_session_status_iff s SessionStatus.failed)
