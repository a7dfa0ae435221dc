-- ===== src/Jobs/Samples.antt =====
-- Runs of the dispatcher and of the retry policy on a sample table.
use Prim.Native.Nat.{ℕ}
use wingmen_orchestrator.Prelude.{All, ◌≢◌}
use wingmen_orchestrator.Prelude.{String, ◌≡◌, refl, true, none, some, List, [], ◌∷◌, map}
use wingmen_orchestrator.Prelude.Texts.{Text, codes, contains}
use wingmen_orchestrator.Jobs.Table.{
  Job, Status, queued, running, paused, select, update_where, returned,
}
use wingmen_orchestrator.Jobs.Dispatch.{candidates, insert, sort, claim, claim_each, pick_next_jobs}
use wingmen_orchestrator.Jobs.Dispatch.Passes.{pick_next_jobs-disjoint}
use wingmen_orchestrator.Jobs.Run.{Outcome, failed_with, crashed, rate_limited, succeeded}
use wingmen_orchestrator.Jobs.Run.Lives.{live}
use wingmen_orchestrator.Jobs.Retry.{
  Class, classify, already_auto_retried, is_permanent, is_stale_error, search_parts, chain, gap,
  retry_job, run_paused_jobs_retry_policy,
}
use wingmen_orchestrator.Jobs.Retry.Tick.{is_retryable, ticked, run_paused_jobs_retry_policy-map}
use wingmen_orchestrator.Jobs.Retry.Marker.{retried_again}

abbrev stale_summary : Text
stale_summary = codes "PGRST204: stale"

abbrev job_of : ℕ → String → Status → Job
job_of i repo s = record {
  id = i;
  repo_name = repo;
  status = s;
  priority = 5;
  created_at = i;
  updated_at = 10;
  retry_after = none;
  fail_count = 0;
  result_summary = none;
}

abbrev stuck_job : Job
stuck_job = record (job_of 4 "hifz" paused) { fail_count = 3; result_summary = some stale_summary }

abbrev table : List Job
table =
    job_of 1 "ihsanos" queued ∷ job_of 2 "ihsanos" queued ∷ job_of 3 "site" running ∷ stuck_job ∷ []

pick_test : map (λ j. j.id) (pick_next_jobs true 50 ("site" ∷ []) 3 table table).0 ≡ 1 ∷ []
unfolding pick_next_jobs candidates select insert sort claim_each claim returned update_where
pick_test = refl

reset_test :
    (classify (some (codes "Could not find the x column y in the schema cache")))
    ≡ Class.stale_error
unfolding classify is_permanent is_stale_error search_parts chain gap contains
reset_test = refl

abbrev bad_runs : List (ℕ × Outcome)
bad_runs =
    (60, failed_with (codes "x"))
    ∷ (61, rate_limited (codes "y") 90)
    ∷ (95, crashed (codes "z"))
    ∷ (99, failed_with (codes "x"))
    ∷ (120, succeeded (codes "late"))
    ∷ []

abbrev worse_runs : List (ℕ × Outcome)
worse_runs =
    (60, failed_with (codes "x"))
    ∷ (61, rate_limited (codes "y") 90)
    ∷ (95, crashed (codes "z"))
    ∷ (99, failed_with (codes "x"))
    ∷ []

run_paused_jobs_retry_policy-map_example :
    (run_paused_jobs_retry_policy 40 50 (codes "now") (stuck_job ∷ [])).1
    ≡ map (ticked 40 50 (codes "now")) (stuck_job ∷ [])
run_paused_jobs_retry_policy-map_example =
    run_paused_jobs_retry_policy-map 40 50 (codes "now") (stuck_job ∷ []) (tt, tt)

abbrev lived : Job
lived = live 3 (retry_job 50 (codes "now") stuck_job stuck_job) (
    (60, failed_with stale_summary)
    ∷ (70, failed_with stale_summary)
    ∷ (80, failed_with stale_summary)
    ∷ [])

retried_again_example :
    (lived.status ≡ paused) × (lived.fail_count ≡ 3) × (is_retryable lived ≡ true)
unfolding classify is_permanent is_stale_error search_parts chain gap contains already_auto_retried
retried_again_example = retried_again stuck_job 50 (codes "now") 60 70 80 stale_summary refl refl

pick_next_jobs-disjoint_example :
    All
      (λ j.
        All
          (λ k. k.id ≢ j.id)
          (pick_next_jobs true 51 [] 2 table (pick_next_jobs true 50 [] 1 table table).1).0)
      (pick_next_jobs true 50 [] 1 table table).0
pick_next_jobs-disjoint_example =
    pick_next_jobs-disjoint true true 50 51 1 2 [] [] table table table
