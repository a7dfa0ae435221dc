-- ===== src/LongCaller/Sweep.antt =====
-- `_long_caller_sweep` of watchdog.py, from the rows that its two queries return. Whether the n-th
-- call to the outside (an INSERT, a signal, a message) succeeds is the oracle `outside`. A refused
-- signal is ProcessLookupError or PermissionError, which the source catches.
pub mod Kills
use wingmen_orchestrator.Prelude.{
  ℕ, zero, suc, String, Bool, true, false, Option, none, some, List, [], ◌∷◌, ◌==◌, nat_eq,
  string_eq, if◌then◌else◌,
}
use Prim.Native.String.{◌++◌}
use wingmen_orchestrator.Prelude.Texts.{Text, codes}
use wingmen_orchestrator.LongCaller.Decision.{
  ContentShape, Caller, KillDecision, Action, hard_kill, no_kill, monitored, no_action, Reason,
  pid_recycled, decide_kill_with_pid_verify,
}

pub data Event : Type 0 where
  observed : String → Event
  pre_kill_audit : String → ℕ → Event
  audit_failed : String → ℕ → Event
  terminated : String → ℕ → Event
  alerted : String → ℕ → Event
  kill_logged : String → ℕ → Event
  monitored_row : String → Event
  aborted_kill : String → Event

-- `log` has the last event first.
pub record World : Type 0 where
  pub outside : ℕ → Bool
  pub calls : ℕ
  pub log : List Event

abbrev answered : Bool → Event → World → Bool × World
answered true e w = (true, record w { calls = suc w.calls; log = e ∷ w.log })
answered false e w = (false, record w { calls = suc w.calls })

-- One call, which leaves the event if it succeeds.
unfoldable pub attempt : Event → World → Bool × World
attempt e w = answered (w.outside w.calls) e w

-- What follows a call, by its success.
abbrev pub after : Bool × World → (World → Bool × World) → (World → Bool × World) → Bool × World
after (true, w) f g = f w
after (false, w) f g = g w

-- The row is done, or an exception ends the sweep.
abbrev pub done : World → Bool × World
done w = (true, w)

abbrev pub raised : World → Bool × World
raised w = (false, w)

-- SIGTERM and what follows it, only behind its audit row.
unfoldable pub kill_caller : String → ℕ → World → Bool × World
unfolding attempt
kill_caller name pid w =
    after (attempt (pre_kill_audit name pid) w)
      (λ w1.
        after (attempt (terminated name pid) w1)
          (λ w2.
            after (attempt (alerted name pid) w2)
              (λ w3. after (attempt (kill_logged name pid) w3) done raised) raised)
          done)
      (λ w1. after (attempt (audit_failed name pid) w1) done done)

-- `if ... and parent_pid`: the pid 0 is false too.
abbrev pub kill_if_known : Option ℕ → String → World → Bool × World
kill_if_known none name w = done w
kill_if_known (some zero) name w = done w
kill_if_known (some (suc n)) name w = kill_caller name (suc n) w

abbrev pub abort_if_recycled : Reason → String → World → Bool × World
abort_if_recycled (pid_recycled cwd) name w = after (attempt (aborted_kill name) w) done raised
abort_if_recycled _ name w = done w

unfoldable pub actuate : KillDecision → World → Bool × World
unfolding kill_caller
actuate d w = elim d.action [
  | hard_kill ↦ kill_if_known d.pid d.caller_name w
  | monitored ↦ after (attempt (monitored_row d.caller_name) w) done done
  | no_kill ↦ abort_if_recycled d.reason d.caller_name w
  | no_action ↦ done w
]

-- A row of active_autonomous_loops, with what the file system and `ps` tell of it.
pub record Flagged : Type 0 where
  pub cc_identity : String
  pub parent_pid : Option ℕ
  pub content_shape : Option ContentShape
  pub cwd : Option Text

-- The policy under a name in the registry of callers that are not revoked, where a name stands once.
unfoldable pub find_policy : List (String × Option String) → String → Option (Option String)
find_policy [] name = none
find_policy ((caller, policy) ∷ rows) name =
    let rest = find_policy rows name in if caller == name then some policy else rest

abbrev caller_as : Flagged → String → Bool → Option String → Caller
caller_as f name registered policy = record {
  caller_name = name;
  registered = registered;
  registered_policy = policy;
  parent_pid = f.parent_pid;
  content_shape = f.content_shape;
}

abbrev match_second : Flagged → String → Option (Option String) → Caller
match_second f name none = caller_as f f.cc_identity false none
match_second f name (some policy) = caller_as f name true policy

abbrev match_first : Flagged → Option (Option String) → Caller → Caller
match_first f none second = second
match_first f (some policy) second = caller_as f f.cc_identity true policy

-- The identity is looked up as it is, and then with the suffix of interactive sessions.
unfoldable pub match_caller : List (String × Option String) → Flagged → Caller
match_caller registry f =
    let name = f.cc_identity ++ "-interactive" in
    match_first f (find_policy registry f.cc_identity)
      (match_second f name (find_policy registry name))

abbrev pub expected_cwd_prefix : Text
expected_cwd_prefix = codes "/Users/sheikhmusa/wingmen/"

abbrev pub decision_for : Option Text → List (String × Option String) → Flagged → KillDecision
decision_for panic registry f =
    decide_kill_with_pid_verify panic expected_cwd_prefix f.cwd (match_caller registry f)

-- The calibration row is written first, and its failure is caught.
unfoldable pub sweep_one :
    Option Text → List (String × Option String) → Flagged → World → Bool × World
unfolding actuate
sweep_one panic registry f w =
    let d = decision_for panic registry f in
    after (attempt (observed d.caller_name) w) (λ w1. actuate d w1) (λ w1. actuate d w1)

unfoldable pub long_caller_sweep :
    Option Text → List (String × Option String) → List Flagged → World → Bool × World
long_caller_sweep panic registry [] w = done w
long_caller_sweep panic registry (f ∷ fs) w =
    after (sweep_one panic registry f w) (λ w1. long_caller_sweep panic registry fs w1) raised
