-- ===== src/ContextReset/Samples.antt =====
-- Sample probes.
use wingmen_orchestrator.Prelude.{◌≡◌, refl, Bool, true, false, some, arith}
use wingmen_orchestrator.ContextReset.{
  PaneState, confirm_reset, Probes, do_reset, arm_red, arm_amber, ExecState, Spans, execute_row,
  run_executor, run_checkpoint_for,
}
use wingmen_orchestrator.ContextReset.Clears.{MayClear, MayRun, run_executor-MayClear}
use wingmen_orchestrator.ContextReset.Dedup.{red_body, unconfirmed_redrives}

abbrev calm : PaneState
calm = record { reachable = true; idle = some true; authenticated = some true; has_input = false }

-- All is well but the boot, which is typed or not.
abbrev probes : Bool → Probes
probes boot_typed = record {
  pane = calm;
  owed_action = false;
  fresh_handoff = true;
  checkpoint_ok = false;
  pane_before_clear = calm;
  capture_verified = true;
  clear_typed = true;
  clear_in_box = true;
  clear_entered = true;
  pane_after_clear = calm;
  boot_typed = boot_typed;
  boot_entered = true;
  is_booting = true;
  confirmation = confirm_reset;
}

abbrev spans : Spans
spans = record { reset_dedup = 1800; checkpoint_dedup = 2700 }

abbrev est : ExecState
est = record { reset_at = 0; checkpoint_at = 0 }

amber_test :
    (run_executor spans arm_amber true 5000 red_body (probes true) est).clear_submitted ≡ false
unfolding run_executor execute_row do_reset run_checkpoint_for
amber_test = refl

run_executor-MayClear_example : MayRun spans arm_red true 5000 red_body est × MayClear (probes true)
unfolding run_executor execute_row do_reset run_checkpoint_for
run_executor-MayClear_example =
    run_executor-MayClear spans arm_red true 5000 red_body (probes true) est refl

-- Ten minutes after a boot that failed.
unconfirmed_redrives_example :
    ((run_executor spans arm_red true 5000 red_body (probes false) est).clear_submitted ≡ true)
    × ((run_executor spans arm_red true 5600 red_body
          (probes true)
          (run_executor spans arm_red true 5000 red_body (probes false) est).state).clear_submitted
        ≡ true)
unfolding do_reset
unconfirmed_redrives_example =
    unconfirmed_redrives spans 5000 5600 (probes false) (probes true) est (omega arith)
      (omega arith) refl refl refl refl
