-- ===== src/CaiDaemon/Samples.antt =====
-- Runs of the daemon on sample messages.
use Prim.Native.Nat.{ℕ}
use wingmen_orchestrator.Prelude.{
  ◌≡◌, refl, ◌≢◌, Bool, true, false, none, some, [], ◌∷◌, All, arith,
}
use wingmen_orchestrator.Prelude.Texts.{codes, contains}
use wingmen_orchestrator.CaiDaemon.Classifier.{
  Message, mark_read_fyi, classify, classify_by_shape, classify_routine, classify_update,
  find_keyword, find_pattern, keyword_layers, tripwire_search, calibration_search, findings_search,
}
use wingmen_orchestrator.CaiDaemon.World.{State, live, pure_escalation, KillSwitch, World}
use wingmen_orchestrator.CaiDaemon.KillSwitch.{observe, force_state}
use wingmen_orchestrator.CaiDaemon.KillSwitch.Force.{force_live_retrips}
use wingmen_orchestrator.CaiDaemon.Cycle.{run_one_cycle}
use wingmen_orchestrator.CaiDaemon.Cycle.AuditFirst.{AuditedFirst, run_one_cycle-AuditedFirst}
use wingmen_orchestrator.CaiDaemon.Cycle.Authority.{silent_writes, cycle_not_live}
use wingmen_orchestrator.CaiDaemon.Cycle.SilentLane.{FromSilent, cycle_silent_only}

abbrev note : Message
note = record {
  id = 7;
  thread_id = "t";
  from_agent = "cc";
  subject = some (codes "weekly digest");
  body = some (codes "all well");
  priority = some "P3";
  message_type = some "update";
  requires_response = false;
}

abbrev question : Message
question = record {
  id = 8;
  thread_id = "t";
  from_agent = "cc";
  subject = some (codes "odd");
  body = none;
  priority = some "P3";
  message_type = some "question";
  requires_response = true;
}

abbrev switch_at : State → ℕ → KillSwitch
switch_at s n = record { state = s; low_conf_streak = n }

abbrev world_at : State → ℕ → Bool → World
world_at s n up = record { outside = λ i. up; calls = 0; log = []; switch = switch_at s n }

note_test : (classify note).label ≡ mark_read_fyi
unfolding classify find_keyword find_pattern keyword_layers contains classify_by_shape
    classify_routine classify_update tripwire_search calibration_search findings_search
note_test = refl

question_test : (classify question).confidence ≡ 40
unfolding classify find_keyword find_pattern keyword_layers contains classify_by_shape
    classify_routine
question_test = refl

run_one_cycle-AuditedFirst_example :
    AuditedFirst (run_one_cycle false (note ∷ question ∷ []) (world_at live 0 true)).1.log
run_one_cycle-AuditedFirst_example =
    run_one_cycle-AuditedFirst false (note ∷ question ∷ []) (world_at live 0 true) tt

cycle_silent_only_example :
    All
      (FromSilent (note ∷ question ∷ []))
      (silent_writes (run_one_cycle false (note ∷ question ∷ []) (world_at live 0 true)).1.log)
cycle_silent_only_example =
    cycle_silent_only false (note ∷ question ∷ []) (world_at live 0 true) refl

cycle_not_live_example :
    ((run_one_cycle false (note ∷ []) (world_at pure_escalation 3 true)).1.switch.state ≢ live)
    × (silent_writes (run_one_cycle false (note ∷ []) (world_at pure_escalation 3 true)).1.log ≡ [])
cycle_not_live_example =
    cycle_not_live false (note ∷ []) (world_at pure_escalation 3 true) (λ h. cc)

force_live_retrips_example :
    (observe 40 (force_state "live" (world_at pure_escalation 3 true)).1).1.switch.state
    ≡ pure_escalation
force_live_retrips_example =
    force_live_retrips (world_at pure_escalation 3 true) 40 (omega arith) (omega arith)
