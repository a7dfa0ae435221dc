-- ===== src/Drain/Samples.antt =====
-- Runs of the drain on sample rulings.
use wingmen_orchestrator.Prelude.{◌≡◌, refl, ◌↔◌, true, false, none, some, [], ◌∷◌, any}
use wingmen_orchestrator.Prelude.Texts.{Text, codes, is_truthy}
use wingmen_orchestrator.Drain.Grant.{Ruling, evaluate_grant}
use wingmen_orchestrator.Drain.Refs.{
  sanitize_ref, dash_unsafe, squeeze_dashes, trim_start, trim_end,
}
use wingmen_orchestrator.Drain.Refs.Safe.{IsClean, sanitize_ref-IsClean}
use wingmen_orchestrator.Drain.Runner.{
  Session, exited, timed_out, pr_opened, execute_ruling, run_local_ci, run_steps, summarize_ci,
}
use wingmen_orchestrator.Drain.Runner.Gates.{MayPublish, is_publish, publish_iff}
use wingmen_orchestrator.Drain.Cycle.{Env, run_cycle}
use wingmen_orchestrator.Drain.Cycle.Authority.{executed_of, cycle_executes_held}

abbrev ruling : Text → Ruling
ruling ref = record {
  decision_ref = some ref;
  execution_status = some "granted";
  repos_affected = "ihsanos" ∷ [];
  challenge_status = some "accepted";
  decision = codes "apply 031_x.sql";
}

abbrev open_ruling : Text → Ruling
open_ruling ref = record {
  decision_ref = some ref;
  execution_status = some "granted";
  repos_affected = "ihsanos" ∷ [];
  challenge_status = some "open";
  decision = [];
}

abbrev session : Session
session = record {
  claude_ok = true;
  tokens = 1200;
  changed_files = codes "supabase/migrations/031_x.sql" ∷ [];
  ci_green = true;
  published = true;
}

abbrev enabled_env : Env
enabled_env = record { drain_disabled = none; execute_enabled = some (codes " True ") }

sanitize_test : sanitize_ref (some (codes "--SD #12/a.")) ≡ codes "SD-12-a"
unfolding sanitize_ref dash_unsafe squeeze_dashes trim_start trim_end
sanitize_test = refl

timeout_test : (run_local_ci (exited 0 ∷ timed_out ∷ exited 0 ∷ [])).0 ≡ false
unfolding run_local_ci run_steps summarize_ci
timeout_test = refl

sanitize_ref-IsClean_example : IsClean (sanitize_ref (some (codes "../SD #12")))
sanitize_ref-IsClean_example = sanitize_ref-IsClean (some (codes "../SD #12"))

publish_iff_example :
    ((any is_publish (execute_ruling (ruling (codes "SD-1")) session).1 ≡ true)
      ↔ MayPublish (ruling (codes "SD-1")) session)
    × (((execute_ruling (ruling (codes "SD-1")) session).0.status ≡ pr_opened)
        ↔ (MayPublish (ruling (codes "SD-1")) session × (session.published ≡ true)))
publish_iff_example = publish_iff (ruling (codes "SD-1")) session

cycle_executes_held_example :
    executed_of
      (run_cycle enabled_env 0 (ruling (codes "SD-1") ∷ open_ruling (codes "SD-1") ∷ [])).1
    ≡ ruling (codes "SD-1") ∷ open_ruling (codes "SD-1") ∷ []
unfolding is_truthy evaluate_grant
cycle_executes_held_example =
    cycle_executes_held enabled_env 0 (ruling (codes "SD-1")) (open_ruling (codes "SD-1")) refl refl
      refl refl refl
