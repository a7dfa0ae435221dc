-- ===== src/Drain/Runner.antt =====
-- The gates of ihsanos_drain/runner.py: `execute_ruling` with what it is handed (the Claude session,
-- the diff, the local CI, the publication) given by their results, and the local CI's own loop. The
-- texts of the details are left out.
pub mod Gates
pub mod Ci
use wingmen_orchestrator.Prelude.{
  ℕ, Bool, true, false, not, ◌&&◌, Option, none, some, List, [], ◌∷◌, is_empty, ◌==◌, nat_eq,
  if◌then◌else◌,
}
use wingmen_orchestrator.Prelude.Texts.{Text, codes, starts_with, contains, behind}
use wingmen_orchestrator.Drain.Grant.{Ruling}

abbrev pub migration_prefix : Text
migration_prefix = codes "supabase/migrations/"

-- A path that `unauthorized_migrations` collects.
unfoldable pub is_unauthorized : Text → Text → Bool
is_unauthorized decision_text path =
    starts_with path migration_prefix
    && (not (contains decision_text (behind path migration_prefix))
        && not (contains decision_text path))

unfoldable pub unauthorized_migrations : List Text → Text → List Text
unauthorized_migrations [] decision_text = []
unauthorized_migrations (path ∷ changed) decision_text =
    let rest = unauthorized_migrations changed decision_text in
    if is_unauthorized decision_text path then path ∷ rest else rest

pub data Status : Type 0 where
  pr_opened escalated_ci_red escalated_ambiguous escalated_no_commit : Status
  escalated_publish_failed refused_migration : Status

pub record ExecOutcome : Type 0 where
  pub status : Status
  pub ruling_ref : Option Text
  pub tokens_spent : ℕ

-- The results of the four calls. A call that returns None or an empty dict is not ok, with 0 tokens.
pub record Session : Type 0 where
  pub claude_ok : Bool
  pub tokens : ℕ
  pub changed_files : List Text
  pub ci_green : Bool
  pub published : Bool

pub data Call : Type 0 where
  run_claude changed_files_fn run_ci publish_fn : Call

abbrev outcome : Ruling → Session → Status → ExecOutcome
outcome r s t = record { status = t; ruling_ref = r.decision_ref; tokens_spent = s.tokens }

-- The outcome, and the calls made, in their order.
unfoldable pub execute_ruling : Ruling → Session → ExecOutcome × List Call
execute_ruling r s =
    if not s.claude_ok
    then (outcome r s escalated_ambiguous, run_claude ∷ [])
    else if is_empty s.changed_files
    then (outcome r s escalated_no_commit, run_claude ∷ changed_files_fn ∷ [])
    else if not (is_empty (unauthorized_migrations s.changed_files r.decision))
    then (outcome r s refused_migration, run_claude ∷ changed_files_fn ∷ [])
    else if not s.ci_green
    then (outcome r s escalated_ci_red, run_claude ∷ changed_files_fn ∷ run_ci ∷ [])
    else (
      outcome r s (if s.published then pr_opened else escalated_publish_failed),
      run_claude ∷ changed_files_fn ∷ run_ci ∷ publish_fn ∷ [],
    )

-- What one step of the local CI does: it exits with a status, or times out.
pub data StepRun : Type 0 where
  exited : ℕ → StepRun
  timed_out : StepRun

abbrev pub return_code : StepRun → ℕ
return_code (exited rc) = rc
return_code timed_out = 124

-- The loop of `run_local_ci` over the steps' runs: the return codes recorded, up to the first that
-- is not 0.
unfoldable pub run_steps : List StepRun → List ℕ
run_steps [] = []
run_steps (s ∷ steps) =
    let rest = run_steps steps in return_code s ∷ (if return_code s == 0 then rest else [])

abbrev first_failure : List ℕ → Option ℕ
first_failure [] = none
first_failure (rc ∷ rcs) = if rc == 0 then first_failure rcs else some rc

-- What the detail names.
pub data Detail : Type 0 where
  no_steps_ran : Detail
  step_failed : ℕ → Detail
  all_passed : Detail

abbrev failure_detail : Option ℕ → Bool × Detail
failure_detail none = (true, all_passed)
failure_detail (some rc) = (false, step_failed rc)

unfoldable pub summarize_ci : List ℕ → Bool × Detail
summarize_ci [] = (false, no_steps_ran)
summarize_ci (rc ∷ rcs) = failure_detail (first_failure (rc ∷ rcs))

unfoldable pub run_local_ci : List StepRun → Bool × Detail
unfolding run_steps summarize_ci
run_local_ci steps = summarize_ci (run_steps steps)
