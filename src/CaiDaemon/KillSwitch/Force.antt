-- ===== src/CaiDaemon/KillSwitch/Force.antt =====
-- The operator's transitions, and what a return to the live state forgets.
use wingmen_orchestrator.Prelude.{ℕ, ◌<◌, ◌≤◌, String, ◌≡◌, ◌≢◌, false, none, ap, arith, eq_iff}
use wingmen_orchestrator.CaiDaemon.World.{
  State, live, pure_escalation, panic_disabled, KillSwitch, World,
}
use wingmen_orchestrator.CaiDaemon.KillSwitch.{
  confidence_drop_threshold, transition_to, observe, force_state,
}

-- A transition to another name than those of the three states raises, and changes nothing.
pub force_state_invalid :
    (s : String) (w : World)
    → s ≢ "live"
    → s ≢ "pure_escalation_mode"
    → s ≢ "panic_disabled"
    → force_state s w ≡ (none, w)
unfolding force_state
force_state_invalid s w a b c =
    ground (arith, eq_iff s "live", eq_iff s "pure_escalation_mode", eq_iff s "panic_disabled")

transition_to-switch :
    (s : State) (w : World)
    → (transition_to s w).1.switch
      ≡ record { state = s; low_conf_streak = w.switch.low_conf_streak }
unfolding transition_to
transition_to-switch s w = ground arith

transition_to-log :
    (s : State) (w : World) → w.outside w.calls ≡ false → (transition_to s w).1.log ≡ w.log
unfolding transition_to
transition_to-log s w h = ground arith

observe_third :
    (c : ℕ) (w : World) {k : ℕ}
    → w.switch ≡ record { state = live; low_conf_streak = k }
    → 2 ≤ k
    → c < confidence_drop_threshold
    → (observe c w).1.switch.state ≡ pure_escalation
unfolding observe
observe_third c w e h low = ground arith

-- The operator's return to live keeps the streak: from any switch whose streak has reached two, one
-- low confidence after the return trips it again, where three in a row are meant to be needed.
pub force_live_retrips :
    (w : World) (c : ℕ)
    → 2 ≤ w.switch.low_conf_streak
    → c < confidence_drop_threshold
    → (observe c (force_state "live" w).1).1.switch.state ≡ pure_escalation
unfolding force_state
force_live_retrips w c h low =
    observe_third c (transition_to live w).1 (transition_to-switch live w) h low

-- A transition takes effect also where its audit row cannot be written: after the operator's panic,
-- with a database that refuses the row, the switch is in the panic state and the log is unchanged.
pub force_without_audit :
    (w : World)
    → w.outside w.calls ≡ false
    → ((force_state "panic_disabled" w).1.switch.state ≡ panic_disabled)
      × ((force_state "panic_disabled" w).1.log ≡ w.log)
unfolding force_state
force_without_audit w h = (
  ap (λ (k : KillSwitch). k.state) (transition_to-switch panic_disabled w),
  transition_to-log panic_disabled w h,
)
