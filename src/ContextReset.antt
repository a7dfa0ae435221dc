-- ===== src/ContextReset.antt =====
-- scripts/context_health_watchdog.py: `_do_reset`, `_run_checkpoint_for` and `run_executor`. What the
-- probes of the pane, of the inbox and of the telemetry find is an input; a crash of one is not modelled.
pub mod Clears
pub mod Dedup
mod Samples
use wingmen_orchestrator.Prelude.{
  ℕ, zero, suc, ◌+◌, ◌*◌, Bool, true, false, not, ◌&&◌, ◌||◌, Option, none, some, List, [], ◌∷◌,
  ltb, if◌then◌else◌,
}

pub record PaneState : Type 0 where
  pub reachable : Bool
  pub idle : Option Bool
  pub authenticated : Option Bool
  pub has_input : Bool

pub data Confirmation : Type 0 where
  confirm_reset confirm_not_reset confirm_unknown : Confirmation

-- What a reset would find, in the order in which it looks.
pub record Probes : Type 0 where
  pub pane : PaneState
  pub owed_action : Bool
  pub fresh_handoff : Bool
  pub checkpoint_ok : Bool
  pub pane_before_clear : PaneState
  pub capture_verified : Bool
  pub clear_typed : Bool
  pub clear_in_box : Bool
  pub clear_entered : Bool
  pub pane_after_clear : PaneState
  pub boot_typed : Bool
  pub boot_entered : Bool
  pub is_booting : Bool
  pub confirmation : Confirmation

-- What it did.
pub record Outcome : Type 0 where
  pub ok : Bool
  pub checkpointed : Bool
  pub typed : Bool
  pub clear_submitted : Bool
  pub paged : Bool
  pub confirmation : Option Confirmation

abbrev pub is_true : Option Bool → Bool
is_true none = false
is_true (some b) = b

abbrev pub is_false : Option Bool → Bool
is_false none = false
is_false (some b) = not b

abbrev pub is_ready : PaneState → Bool
is_ready st = is_true st.idle && is_true st.authenticated

abbrev pub stopped : (checkpointed typed submitted paged : Bool) → Outcome
stopped checkpointed typed submitted paged = record {
  ok = false;
  checkpointed = checkpointed;
  typed = typed;
  clear_submitted = submitted;
  paged = paged;
  confirmation = none;
}

abbrev pub confirmed : (checkpointed booting : Bool) → Confirmation → Outcome
confirmed checkpointed booting confirm_reset = record {
  ok = true;
  checkpointed = checkpointed;
  typed = true;
  clear_submitted = true;
  paged = not booting;
  confirmation = some confirm_reset;
}
confirmed checkpointed booting c = record {
  ok = false;
  checkpointed = checkpointed;
  typed = true;
  clear_submitted = true;
  paged = true;
  confirmation = some c;
}

-- From the submitted /clear on.
abbrev pub after_clear : Probes → Bool → Outcome
after_clear p checkpointed =
    if not p.pane_after_clear.reachable
    then stopped checkpointed true true true
    else if is_false p.pane_after_clear.authenticated
    then stopped checkpointed true true true
    else if not (p.boot_typed && p.boot_entered)
    then stopped checkpointed true true true
    else confirmed checkpointed p.is_booting p.confirmation

-- The /clear, under its guard.
abbrev pub clear : Probes → Bool → Outcome
clear p checkpointed =
    if not p.clear_typed
    then stopped checkpointed false false true
    else if not p.clear_in_box
    then stopped checkpointed true false true
    else if not p.clear_entered
    then stopped checkpointed true false true
    else after_clear p checkpointed

-- The gates that are looked at again.
abbrev pub before_clear : Probes → Bool → Outcome
before_clear p checkpointed =
    if not (is_ready p.pane_before_clear)
    then stopped checkpointed false false false
    else if not p.capture_verified
    then stopped checkpointed false false true
    else clear p checkpointed

abbrev pub needs_checkpoint : Probes → Bool
needs_checkpoint p = not p.fresh_handoff || p.pane.has_input

unfoldable pub do_reset : Bool → Probes → Outcome
do_reset auto_reset p =
    if not auto_reset
    then stopped false false false false
    else if not p.pane.reachable || not (is_ready p.pane) || p.owed_action
    then stopped false false false false
    else if needs_checkpoint p && not p.checkpoint_ok
    then stopped false false false true
    else before_clear p (needs_checkpoint p)

pub data Level : Type 0 where
  green amber red : Level

pub data ArmLevel : Type 0 where
  arm_off arm_amber arm_red : ArmLevel

-- A row, and what the registry says of it.
pub record AgentCtx : Type 0 where
  pub level : Level
  pub action_ok : Bool
  pub stale : Bool
  pub auto_reset : Bool

pub record ExecState : Type 0 where
  pub reset_at : ℕ
  pub checkpoint_at : ℕ

-- What a cycle did to a body, and what it keeps.
pub record Acted : Type 0 where
  pub state : ExecState
  pub clear_submitted : Bool
  pub paged : Bool

abbrev pub nothing : ExecState → Acted
nothing est = record { state = est; clear_submitted = false; paged = false }

unfoldable pub run_checkpoint_for : ℕ → ℕ → Probes → ExecState → Acted
run_checkpoint_for dedup now p est =
    if ltb now (est.checkpoint_at + dedup) && p.fresh_handoff
    then nothing est
    else if not p.pane.reachable || not (is_ready p.pane)
    then nothing est
    else if p.checkpoint_ok
    then nothing (record est { checkpoint_at = now })
    else record { state = est; clear_submitted = false; paged = true }

abbrev pub is_unknown : Option Confirmation → Bool
is_unknown none = false
is_unknown (some c) = elim c [ confirm_unknown ↦ true | _ ↦ false ]

abbrev pub remembered : ℕ → Outcome → ExecState → ExecState
remembered now r est =
    if r.ok
    then record { reset_at = now; checkpoint_at = now }
    else if is_unknown r.confirmation
    then record est { reset_at = now }
    else est

abbrev pub is_red : Level → Bool
is_red red = true
is_red _ = false

abbrev pub is_armed : ArmLevel → Bool
is_armed arm_off = false
is_armed _ = true

abbrev pub is_arm_red : ArmLevel → Bool
is_arm_red arm_red = true
is_arm_red _ = false

-- The two spans in seconds within which nothing is done again.
pub record Spans : Type 0 where
  pub reset_dedup : ℕ
  pub checkpoint_dedup : ℕ

-- The body of the loop over the rows.
unfoldable pub execute_row : Spans → ArmLevel → ℕ → AgentCtx → Probes → ExecState → Acted
unfolding do_reset run_checkpoint_for
execute_row c arm now a p est =
    if not a.auto_reset || a.action_ok
    then nothing est
    else if is_red a.level && is_arm_red arm && not a.stale
    then (if ltb now (est.reset_at + c.reset_dedup)
        then nothing est
        else let r = do_reset a.auto_reset p in
          record {
            state = remembered now r est;
            clear_submitted = r.clear_submitted;
            paged = r.paged;
          })
    else run_checkpoint_for c.checkpoint_dedup now p est

-- One row of `run_executor`, with its tests of the arm and of the lease.
unfoldable pub run_executor : Spans → ArmLevel → Bool → ℕ → AgentCtx → Probes → ExecState → Acted
unfolding execute_row
run_executor c arm lease_ok now a p est =
    if not (is_armed arm) || not lease_ok then nothing est else execute_row c arm now a p est
