-- ===== src/CaiDaemon/KillSwitch.antt =====
-- cc_cai_daemon/kill_switch.py
pub mod Streak
pub mod Force
use wingmen_orchestrator.Prelude.{
  ℕ, suc, ◌+◌, String, Bool, true, false, Option, none, some, ltb, leb, ◌==◌, string_eq,
  if◌then◌else◌,
}
use wingmen_orchestrator.Prelude.Texts.{Text, is_truthy}
use wingmen_orchestrator.CaiDaemon.World.{
  State, live, pure_escalation, panic_disabled, kill_switch_trip, KillSwitch, Act, ◌>>=◌, ◌>>◌,
  pure, branch, audit, set_switch, get_switch,
}

-- In hundredths, as a confidence is.
abbrev pub confidence_drop_threshold : ℕ
confidence_drop_threshold = 50

abbrev pub confidence_drop_consecutive : ℕ
confidence_drop_consecutive = 3

-- KillSwitch.__init__, on the value of the variable WINGMEN_CC_CAI_DAEMON_DISABLED
unfoldable pub start : Option Text → KillSwitch
unfolding is_truthy
start v = record { state = if is_truthy v then panic_disabled else live; low_conf_streak = 0 }

abbrev pub is_live : State → Bool
is_live live = true
is_live _ = false

abbrev pub is_panic : State → Bool
is_panic panic_disabled = true
is_panic _ = false

unfoldable pub should_act_silently : KillSwitch → Bool
should_act_silently k = is_live k.state

unfoldable pub should_escalate : KillSwitch → Bool
should_escalate k = if is_panic k.state then false else true

-- The result of the audit write is not read.
unfoldable pub transition_to : State → Act (Unit {0})
unfolding audit set_switch
transition_to new_state = do
  audit (kill_switch_trip new_state)
  k ← get_switch
  set_switch (record k { state = new_state })

abbrev observe_live : ℕ → KillSwitch → Act (Unit {0})
observe_live confidence k =
    branch (ltb confidence confidence_drop_threshold)
      (do
        set_switch (record k { low_conf_streak = k.low_conf_streak + 1 })
        branch (leb confidence_drop_consecutive (k.low_conf_streak + 1))
            (transition_to pure_escalation) (pure tt))
      (set_switch (record k { low_conf_streak = 0 }))

unfoldable pub observe : ℕ → Act (Unit {0})
unfolding transition_to set_switch
observe confidence = do
  k ← get_switch
  branch (is_live k.state) (observe_live confidence k) (pure tt)

-- The name of a state, as the operator gives it; any other raises ValueError.
abbrev parse_state : String → Option State
parse_state s =
    if s == "live"
    then some live
    else if s == "pure_escalation_mode"
    then some pure_escalation
    else if s == "panic_disabled"
    then some panic_disabled
    else none

abbrev force_parsed : Option State → Act (Unit {0})
force_parsed none w = (none, w)
force_parsed (some s) w = transition_to s w

unfoldable pub force_state : String → Act (Unit {0})
force_state new_state = force_parsed (parse_state new_state)
