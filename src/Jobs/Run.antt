-- ===== src/Jobs/Run.antt =====
-- What `run_job` of wingmen_orch.py writes to the job's row at the end of a run. Of the run itself,
-- which calls Claude, git, the tests and the deployment, only the outcome is modelled; `max_fail` is
-- MAX_FAIL_COUNT.
pub mod Lives
use wingmen_orchestrator.Prelude.{
  ℕ, ◌+◌, Bool, true, false, Option, none, some, List, [], ◌∷◌, ◌++◌, take, leb, if◌then◌else◌,
}
use wingmen_orchestrator.Prelude.Texts.{Text, codes}
use wingmen_orchestrator.Jobs.Table.{Job, Status, queued, completed, paused, is_queued}

-- `crashed` has the text of the exception, `deploy_failed` that of the deployment's.
pub data Outcome : Type 0 where
  succeeded failed_with crashed deploy_failed : Text → Outcome
  rate_limited : Text → ℕ → Outcome

-- set_job_status, with `now` for its updated_at
abbrev pub set_job_status : ℕ → Status → Job → Job
set_job_status now s j = record j { status = s; updated_at = now }

-- The write of a run that counts as a failure.
unfoldable pub fail_job : ℕ → ℕ → Text → Job → Job
fail_job max_fail now summary j =
    record (set_job_status now (if leb max_fail (j.fail_count + 1) then paused else queued) j) {
      fail_count = j.fail_count + 1;
      result_summary = some summary;
    }

unfoldable pub settle : ℕ → ℕ → Outcome → Job → Job
settle max_fail now (succeeded summary) j = record (set_job_status now completed j) {
  result_summary = some (take 2000 summary);
}
settle max_fail now (rate_limited summary retry_after) j = record (set_job_status now queued j) {
  result_summary = some (take 2000 summary);
  retry_after = some retry_after;
}
settle max_fail now (failed_with summary) j = fail_job max_fail now (take 2000 summary) j
settle max_fail now (crashed error) j = fail_job max_fail now (take 2000 error) j
settle max_fail now (deploy_failed error) j =
    fail_job max_fail now (codes "Deploy failed (code committed OK): " ++ take 500 error) j
