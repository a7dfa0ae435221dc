-- ===== src/ContextReset/Clears.antt =====
-- When a body is cleared, and what is known then.
use wingmen_orchestrator.Prelude.{
  ℕ, ◌+◌, ◌≡◌, ◌≤◌, Bool, true, false, not, ◌&&◌, ◌↔◌, ◌⊎◌, Option, none, some, ltb, arith,
}
use wingmen_orchestrator.ContextReset.{
  PaneState, confirm_reset, Probes, is_true, is_ready, needs_checkpoint, do_reset, Level, red,
  ArmLevel, arm_red, AgentCtx, ExecState, run_checkpoint_for, is_red, is_arm_red, Spans,
  execute_row, run_executor,
}

-- Everything that a /clear wants of the probes.
pub record MayClear (p : Probes) : Type 0 where
  pub is_reachable : p.pane.reachable ≡ true
  pub is_idle : p.pane.idle ≡ some true
  pub is_authenticated : p.pane.authenticated ≡ some true
  pub owes_nothing : p.owed_action ≡ false
  pub is_saved : (p.checkpoint_ok ≡ true) ⊎ ((p.fresh_handoff ≡ true) × (p.pane.has_input ≡ false))
  pub still_idle : p.pane_before_clear.idle ≡ some true
  pub still_authenticated : p.pane_before_clear.authenticated ≡ some true
  pub is_captured : p.capture_verified ≡ true
  pub is_in_box : p.clear_in_box ≡ true

is_true-some : (o : Option Bool) → is_true o ≡ true → o ≡ some true
is_true-some none h = cc
is_true-some (some b) h = ground (arith, h)

gates :
    (auto : Bool) (p : Probes)
    → (do_reset auto p).clear_submitted ≡ true
    → (p.pane.reachable ≡ true)
      × (is_ready p.pane ≡ true)
      × (p.owed_action ≡ false)
      × ((needs_checkpoint p && not p.checkpoint_ok) ≡ false)
      × (is_ready p.pane_before_clear ≡ true)
      × (p.capture_verified ≡ true)
      × (p.clear_in_box ≡ true)
unfolding do_reset
gates auto p h = ground (arith, h)

ready-parts :
    (st : PaneState) → is_ready st ≡ true → (st.idle ≡ some true) × (st.authenticated ≡ some true)
ready-parts st h =
    (is_true-some st.idle (ground (arith, h)), is_true-some st.authenticated (ground (arith, h)))

saved :
    (p : Probes)
    → (needs_checkpoint p && not p.checkpoint_ok) ≡ false
    → (p.checkpoint_ok ≡ true) ⊎ ((p.fresh_handoff ≡ true) × (p.pane.has_input ≡ false))
saved p h = ground (arith, h)

do_reset-MayClear :
    (auto : Bool) (p : Probes) → (do_reset auto p).clear_submitted ≡ true → MayClear p
do_reset-MayClear auto p h =
    let g = gates auto p h in
    let now_ready = ready-parts p.pane g.1 in
    let still_ready = ready-parts p.pane_before_clear g.4 in
    record {
      is_reachable = g.0;
      is_idle = now_ready.0;
      is_authenticated = now_ready.1;
      owes_nothing = g.2;
      is_saved = saved p g.3;
      still_idle = still_ready.0;
      still_authenticated = still_ready.1;
      is_captured = g.5;
      is_in_box = g.6;
    }

pub record MayRun (c : Spans) (arm : ArmLevel) (lease_ok : Bool) (now : ℕ) (a : AgentCtx)
    (est : ExecState) : Type 0 where
  pub armed_red : arm ≡ arm_red
  pub has_pen : lease_ok ≡ true
  pub resettable : a.auto_reset ≡ true
  pub is_red_level : a.level ≡ red
  pub current : a.stale ≡ false
  pub span_over : est.reset_at + c.reset_dedup ≤ now

-- What the loop asks before it resets.
asked :
    (c : Spans) (arm : ArmLevel) (lease_ok : Bool) (now : ℕ) (a : AgentCtx) (p : Probes)
    (est : ExecState)
    → (run_executor c arm lease_ok now a p est).clear_submitted ≡ true
    → (is_arm_red arm ≡ true)
      × (lease_ok ≡ true)
      × (a.auto_reset ≡ true)
      × (is_red a.level ≡ true)
      × (a.stale ≡ false)
      × (ltb now (est.reset_at + c.reset_dedup) ≡ false)
      × ((do_reset a.auto_reset p).clear_submitted ≡ true)
unfolding run_executor execute_row run_checkpoint_for
asked c arm lease_ok now a p est h = ground (arith, h)

arm_of : (arm : ArmLevel) → is_arm_red arm ≡ true → arm ≡ arm_red
arm_of arm h = ground (arith, h)

level_of : (l : Level) → is_red l ≡ true → l ≡ red
level_of l h = ground (arith, h)

-- The executor submits a /clear only under the red arm, with the pen, to a body that the registry lets it
-- reset, whose reading is red and current, and whose last reset is a span ago; and only if its pane is
-- reachable, idle and authenticated, and still so after the checkpoint, it owes no action, its state is
-- saved, by a checkpoint of this cycle or a fresh handoff with no unsent input, that is verified, and
-- the /clear stands in the box.
pub run_executor-MayClear :
    (c : Spans) (arm : ArmLevel) (lease_ok : Bool) (now : ℕ) (a : AgentCtx) (p : Probes)
    (est : ExecState)
    → (run_executor c arm lease_ok now a p est).clear_submitted ≡ true
    → MayRun c arm lease_ok now a est × MayClear p
run_executor-MayClear c arm lease_ok now a p est h =
    let k = asked c arm lease_ok now a p est h in
    (
      record {
        armed_red = arm_of arm k.0;
        has_pen = k.1;
        resettable = k.2;
        is_red_level = level_of a.level k.3;
        current = k.4;
        span_over = ground (arith, k.5);
      },
      do_reset-MayClear a.auto_reset p k.6,
    )

-- A reset is reported done exactly when its /clear was submitted and the telemetry has proved it; a
-- /clear that was typed is else paged for, whether it was submitted or not.
pub do_reset_reported :
    (auto : Bool) (p : Probes)
    → (((do_reset auto p).ok ≡ true) ↔ (
        ((do_reset auto p).clear_submitted ≡ true)
        × ((do_reset auto p).confirmation ≡ some confirm_reset)))
      × ((do_reset auto p).typed ≡ true
          → ((do_reset auto p).ok ≡ true) ⊎ ((do_reset auto p).paged ≡ true))
unfolding do_reset
do_reset_reported auto p = ground arith
