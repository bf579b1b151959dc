-- ===== src/Charging/Tests.antt =====
-- Each theorem on charging sessions at an input that meets its hypotheses.
use ev_charge_platform.Prelude.{◌≡◌, ◌≤◌, ◌↔◌, refl, true, false}
use ev_charge_platform.Database.{SessionStatus}
use ev_charge_platform.Charging.{
  assert_charging_session_transition, is_terminal_charging_session_state,
  is_active_charging_session_state,
}
use ev_charge_platform.Charging.Paths.{Run, here, change, Run-IsBounded, IsOver, ended_iff}

-- A charge that goes well.
whole-Run : Run 5 SessionStatus.pending SessionStatus.completed
unfolding assert_charging_session_transition
whole-Run =
    change 4 SessionStatus.pending SessionStatus.authorized SessionStatus.completed (λ e. cc e) refl
      (change 3 SessionStatus.authorized SessionStatus.starting SessionStatus.completed (λ e. cc e)
        refl
        (change 2 SessionStatus.starting SessionStatus.charging SessionStatus.completed (λ e. cc e)
          refl
          (change 1 SessionStatus.charging SessionStatus.stopping SessionStatus.completed
            (λ e. cc e) refl
            (change 0 SessionStatus.stopping SessionStatus.completed SessionStatus.completed
              (λ e. cc e) refl (here SessionStatus.completed)))))

Run-IsBounded_example : 5 ≤ 5
Run-IsBounded_example = Run-IsBounded whole-Run

ended_iff_example :
    ((is_terminal_charging_session_state SessionStatus.completed ≡ true)
      ↔ IsOver SessionStatus.completed)
    × ((is_active_charging_session_state SessionStatus.completed ≡ false)
        ↔ IsOver SessionStatus.completed)
ended_iff_example = ended_iff SessionStatus.completed
