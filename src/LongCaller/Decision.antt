-- ===== src/LongCaller/Decision.antt =====
-- nervous_system/long_caller_watchdog.py: the kill decision. The extras of a decision are left out.
pub mod Conditions
use wingmen_orchestrator.Prelude.{
  ℕ, String, Bool, true, false, not, ◌&&◌, ◌||◌, Option, none, some, ◌==◌, string_eq, if◌then◌else◌,
}
use wingmen_orchestrator.Prelude.Texts.{Text, codes, lower, text_eq, starts_with}

pub record SignalResult : Type 0 where
  pub matched : Option Bool
  pub unobservable : Bool

pub record ContentShape : Type 0 where
  pub signal_a : SignalResult
  pub signal_b : SignalResult
  pub signal_c : SignalResult

-- `match is True`
abbrev pub is_match : SignalResult → Bool
is_match s = elim s.matched [ none ↦ false | some b ↦ b ]

unfoldable pub any_unobservable : ContentShape → Bool
any_unobservable c = c.signal_a.unobservable || (c.signal_b.unobservable || c.signal_c.unobservable)

unfoldable pub all_match : ContentShape → Bool
all_match c = is_match c.signal_a && (is_match c.signal_b && is_match c.signal_c)

pub data Action : Type 0 where
  hard_kill no_kill monitored no_action : Action

pub data Reason : Type 0 where
  substrate_native panic_button_set registered_no_kill_policy registered_no_trigger : Reason
  no_content_shape signals_unobservable three_of_three under_three : Reason
  pid_recycled : Option Text → Reason

pub record KillDecision : Type 0 where
  pub action : Action
  pub reason : Reason
  pub caller_name : String
  pub pid : Option ℕ

-- SUBSTRATE_NATIVE_NEVER_KILL
abbrev pub is_substrate_native : String → Bool
is_substrate_native name = name == "ralphy" || name == "paused-job-retry"

-- os.environ.get(PANIC_ENV_VAR, "").lower() in (...)
unfoldable pub is_panic_set : Option Text → Bool
is_panic_set none = false
is_panic_set (some v) =
    text_eq (lower v) (codes "true")
    || text_eq (lower v) (codes "1")
    || text_eq (lower v) (codes "yes")
    || text_eq (lower v) (codes "on")

-- What the decision is given: the names are those of its keywords.
pub record Caller : Type 0 where
  pub caller_name : String
  pub registered : Bool
  pub registered_policy : Option String
  pub parent_pid : Option ℕ
  pub content_shape : Option ContentShape

abbrev decided : Caller → Action → Reason → KillDecision
decided c a r = record { action = a; reason = r; caller_name = c.caller_name; pid = c.parent_pid }

abbrev is_no_kill : Option String → Bool
is_no_kill none = false
is_no_kill (some p) = p == "no_kill"

-- The decision on an unregistered caller.
unfoldable pub decide_shape : Caller → Option ContentShape → KillDecision
decide_shape c none = decided c monitored no_content_shape
decide_shape c (some s) =
    if any_unobservable s
    then decided c no_action signals_unobservable
    else if all_match s
    then decided c hard_kill three_of_three
    else decided c monitored under_three

unfoldable pub decide_kill : Option Text → Caller → KillDecision
unfolding decide_shape
decide_kill panic c =
    if is_substrate_native c.caller_name
    then decided c no_kill substrate_native
    else if is_panic_set panic
    then decided c no_kill panic_button_set
    else if c.registered
    then decided c no_kill (
        if is_no_kill c.registered_policy then registered_no_kill_policy else registered_no_trigger)
    else decide_shape c c.content_shape

abbrev pub is_hard_kill : Action → Bool
is_hard_kill hard_kill = true
is_hard_kill _ = false

abbrev pub in_prefix : Text → Option Text → Bool
in_prefix prefix none = false
in_prefix prefix (some cwd) = starts_with cwd prefix

abbrev verify_pid : Text → Option Text → Caller → KillDecision → Option ℕ → KillDecision
verify_pid prefix cwd c inner none = inner
verify_pid prefix cwd c inner (some pid) =
    if is_hard_kill inner.action && not (in_prefix prefix cwd)
    then decided c no_kill (pid_recycled cwd)
    else inner

-- `cwd` is what `ps` tells of the process at the time of the kill.
unfoldable pub decide_kill_with_pid_verify :
    Option Text → Text → Option Text → Caller → KillDecision
unfolding decide_kill
decide_kill_with_pid_verify panic prefix cwd c =
    verify_pid prefix cwd c (decide_kill panic c) c.parent_pid
