-- ===== src/Jobs/Retry.antt =====
-- nervous_system/paused_jobs_retry_policy.py: paused jobs with a stale error are queued once more. The
-- database answers every statement here, and returns the status that it has written.
pub mod Tick
pub mod Marker
use wingmen_orchestrator.Prelude.{
  ℕ, zero, suc, ◌+◌, Bool, true, false, not, ◌&&◌, ◌||◌, Option, none, some, List, [], ◌∷◌, ◌++◌,
  take, length, is_empty, ltb, leb, ◌==◌, nat_eq, if◌then◌else◌,
}
use wingmen_orchestrator.Prelude.Texts.{Text, codes, contains, starts_with, behind}
use wingmen_orchestrator.Jobs.Table.{
  Job, queued, is_paused, select, update_where, returned, update_one,
}

-- `.*` and then what `k` accepts; `.` does not match a newline
unfoldable pub gap : (Text → Bool) → Text → Bool
gap k [] = k []
gap k (c ∷ s) = let rest = gap k s in k (c ∷ s) || (if c == 10 then false else rest)

-- The parts, with `.*` between them, from here on.
unfoldable pub chain : List Text → Text → Bool
unfolding gap
chain [] s = true
chain (p ∷ ps) s = starts_with s p && gap (chain ps) (behind s p)

-- The search for a pattern that is the parts with `.*` between them.
unfoldable pub search_parts : List Text → Text → Bool
unfolding chain
search_parts ps [] = chain ps []
search_parts ps (c ∷ s) = chain ps (c ∷ s) || search_parts ps s

-- _PERMANENT_PAUSE_PATTERNS
unfoldable pub is_permanent : Text → Bool
unfolding search_parts
is_permanent s = search_parts (codes "No commit produced" ∷ codes "ghost success prevented" ∷ []) s

-- _STALE_ERROR_ALLOWLIST. TimeoutError stands in asyncio's name of it.
unfoldable pub is_stale_error : Text → Bool
unfolding search_parts contains
is_stale_error s =
    contains s (codes "PGRST204")
    || search_parts
        (codes "Could not find the " ∷ codes " column " ∷ codes " in the schema cache" ∷ []) s
    || search_parts (codes "Repo '" ∷ codes "' not found in REPOS.json" ∷ []) s
    || contains s (codes "connection timed out")
    || contains s (codes "connection refused")
    || contains s (codes "connection reset")
    || contains s (codes "TimeoutError")

pub data Class : Type 0 where
  stale_error permanent other : Class

abbrev pub summary_text : Option Text → Text
summary_text none = []
summary_text (some s) = s

unfoldable pub classify : Option Text → Class
classify summary =
    if is_permanent (summary_text summary)
    then permanent
    else if is_stale_error (summary_text summary)
    then stale_error
    else other

abbrev pub auto_retry_marker : Text
auto_retry_marker = codes "[paused_jobs_policy auto-retry"

unfoldable pub already_auto_retried : Option Text → Bool
unfolding contains
already_auto_retried summary = contains (summary_text summary) auto_retry_marker

abbrev pub annotation : Text → Text
annotation stamp =
    codes " [paused_jobs_policy auto-retry "
    ++ (stamp ++ codes " — stale-error class, see PAUSED-JOBS-RETRY-POLICY-001]")

-- The values of the UPDATE. The summary is that of the row as it was read.
unfoldable pub retry_job : ℕ → Text → Job → Job → Job
retry_job now stamp r j = record j {
  status = queued;
  fail_count = 0;
  result_summary = some (take 5000 (summary_text r.result_summary ++ annotation stamp));
  updated_at = now;
}

pub record Counts : Type 0 where
  pub considered : ℕ
  pub retried : ℕ
  pub skipped_permanent : ℕ
  pub skipped_already_retried : ℕ
  pub skipped_other : ℕ
  pub errors : ℕ

-- The rows that a tick reads.
abbrev pub is_due : ℕ → Job → Bool
is_due cutoff j = is_paused j.status && leb 3 j.fail_count && ltb j.updated_at cutoff

abbrev pub still_paused : Job → Bool
still_paused j = is_paused j.status

abbrev count_update : List Job → Counts → Counts
count_update [] k = record k { errors = suc k.errors }
count_update (j ∷ js) k = record k { retried = suc k.retried }

-- The UPDATE WHERE id and status = paused, and what it counts.
unfoldable pub retry_one : ℕ → Text → Job → Counts → List Job → Counts × List Job
unfolding returned
retry_one now stamp r k t = (
  count_update (returned (λ j. j.id == r.id && still_paused j) (retry_job now stamp r) t) k,
  update_one still_paused (retry_job now stamp) r t,
)

-- The loop's body for one row.
unfoldable pub consider : ℕ → Text → Job → Counts → List Job → Counts × List Job
consider now stamp r k t = elim (classify r.result_summary) [
  | permanent ↦ (record k { skipped_permanent = suc k.skipped_permanent }, t)
  | other ↦ (record k { skipped_other = suc k.skipped_other }, t)
  | stale_error ↦
      if already_auto_retried r.result_summary
      then (record k { skipped_already_retried = suc k.skipped_already_retried }, t)
      else retry_one now stamp r k t
]

unfoldable pub consider_all : ℕ → Text → List Job → Counts → List Job → Counts × List Job
consider_all now stamp [] k t = (k, t)
consider_all now stamp (r ∷ rs) k t =
    let step = consider now stamp r k t in consider_all now stamp rs step.0 step.1

abbrev pub start_counts : ℕ → Counts
start_counts n = record {
  considered = n;
  retried = 0;
  skipped_permanent = 0;
  skipped_already_retried = 0;
  skipped_other = 0;
  errors = 0;
}

-- `cutoff` is an hour before `now`.
unfoldable pub run_paused_jobs_retry_policy : ℕ → ℕ → Text → List Job → Counts × List Job
run_paused_jobs_retry_policy cutoff now stamp t =
    consider_all now stamp (select (is_due cutoff) t)
      (start_counts (length (select (is_due cutoff) t))) t
