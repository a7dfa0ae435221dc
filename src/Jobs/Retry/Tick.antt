-- ===== src/Jobs/Retry/Tick.antt =====
-- What one tick of the retry policy does.
use wingmen_orchestrator.Prelude.{
  ℕ, ◌+◌, ◌≡◌, ◌∙◌, refl, ap, Bool, true, false, not, ◌&&◌, List, [], ◌∷◌, map, length, Bool-cases,
  inl, inr, arith, if◌then◌else◌, nat_eq,
}
use wingmen_orchestrator.Prelude.Texts.{Text}
use wingmen_orchestrator.Jobs.Table.{Job, select, update_one, for_each, UniqueIds}
use wingmen_orchestrator.Jobs.Table.Sweeps.{swept, for_each-update_one}
use wingmen_orchestrator.Jobs.Retry.{
  Class, stale_error, classify, already_auto_retried, retry_job, Counts, is_due, still_paused,
  retry_one, consider, consider_all, start_counts, run_paused_jobs_retry_policy,
}

abbrev is_stale_class : Class → Bool
is_stale_class stale_error = true
is_stale_class _ = false

-- A stale error that has no marker.
unfoldable pub is_retryable : Job → Bool
is_retryable j =
    is_stale_class (classify j.result_summary) && not (already_auto_retried j.result_summary)

module _ (now : ℕ) (stamp : Text) where
  abbrev updating : Job → List Job → List Job
  updating = update_one still_paused (retry_job now stamp)

  consider_retryable :
      (r : Job) (k : Counts) (t : List Job)
      → is_retryable r ≡ true
      → (consider now stamp r k t).1 ≡ updating r t
  unfolding consider retry_one is_retryable
  consider_retryable r k t h = ground arith

  consider_other :
      (r : Job) (k : Counts) (t : List Job)
      → is_retryable r ≡ false
      → (consider now stamp r k t).1 ≡ t
  unfolding consider is_retryable
  consider_other r k t h = ground arith

  consider_all-for_each :
      (rs : List Job) (k : Counts) (t : List Job)
      → (consider_all now stamp rs k t).1 ≡ for_each updating (select is_retryable rs) t
  unfolding consider_all select for_each
  consider_all-for_each [] k t = refl
  consider_all-for_each (r ∷ rs) k t =
      let ih = consider_all-for_each rs (consider now stamp r k t).0 (consider now stamp r k t).1 in
      elim (Bool-cases (is_retryable r)) [
        | inl retried ↦ ground (arith, ih, consider_retryable r k t retried)
        | inr skipped ↦ ground (arith, ih, consider_other r k t skipped)
      ]

select-select :
    (p q : Job → Bool) (t : List Job) → select q (select p t) ≡ select (λ j. p j && q j) t
unfolding select
select-select p q [] = refl
select-select p q (j ∷ t) = ground (arith, select-select p q t)

-- The rows that a tick queues again.
abbrev pub is_retried : ℕ → Job → Bool
is_retried cutoff j = is_due cutoff j && is_retryable j

abbrev pub ticked : ℕ → ℕ → Text → Job → Job
ticked cutoff now stamp j = if is_retried cutoff j then retry_job now stamp j j else j

swept-ticked :
    (cutoff now : ℕ) (stamp : Text) (t : List Job)
    → map (swept (is_retried cutoff) still_paused (retry_job now stamp)) t
      ≡ map (ticked cutoff now stamp) t
swept-ticked cutoff now stamp [] = refl
swept-ticked cutoff now stamp (j ∷ t) = ground (arith, swept-ticked cutoff now stamp t)

-- On a table with unique ids, with nothing else running, a tick queues again exactly the jobs that are
-- paused after three failures or more, since before the cutoff, with a summary that is a stale error
-- and neither a permanent pattern nor marked; it changes no other job.
pub run_paused_jobs_retry_policy-map :
    (cutoff now : ℕ) (stamp : Text) (t : List Job)
    → UniqueIds t
    → (run_paused_jobs_retry_policy cutoff now stamp t).1 ≡ map (ticked cutoff now stamp) t
unfolding run_paused_jobs_retry_policy
run_paused_jobs_retry_policy-map cutoff now stamp t u =
    consider_all-for_each now stamp (select (is_due cutoff) t) _ t
    ∙ ap (λ rs. for_each (update_one still_paused (retry_job now stamp)) rs t)
        (select-select (is_due cutoff) is_retryable t)
    ∙ for_each-update_one (is_retried cutoff) still_paused (retry_job now stamp)
        (λ r j. unfold retry_job in refl) t u
    ∙ swept-ticked cutoff now stamp t

-- How many rows the counts have put somewhere.
abbrev pub counted : Counts → ℕ
counted k = k.retried + k.skipped_permanent + k.skipped_already_retried + k.skipped_other + k.errors

consider-counted :
    (now : ℕ) (stamp : Text) (r : Job) (k : Counts) (t : List Job)
    → (counted (consider now stamp r k t).0 ≡ counted k + 1)
      × ((consider now stamp r k t).0.considered ≡ k.considered)
unfolding consider retry_one
consider-counted now stamp r k t = ground arith

consider_all-counted :
    (now : ℕ) (stamp : Text) (rs : List Job) (k : Counts) (t : List Job)
    → (counted (consider_all now stamp rs k t).0 ≡ counted k + length rs)
      × ((consider_all now stamp rs k t).0.considered ≡ k.considered)
unfolding consider_all
consider_all-counted now stamp [] k t = (omega arith, refl)
consider_all-counted now stamp (r ∷ rs) k t =
    let step = consider now stamp r k t in
    let ih = consider_all-counted now stamp rs step.0 step.1 in
    let one = consider-counted now stamp r k t in (omega (arith, ih.0, one.0), ih.1 ∙ one.1)

-- On every table, each row that a tick considers is counted once: as retried, as one of the three
-- kinds that are skipped, or as an error.
pub run_paused_jobs_retry_policy-counted :
    (cutoff now : ℕ) (stamp : Text) (t : List Job)
    → counted (run_paused_jobs_retry_policy cutoff now stamp t).0
      ≡ (run_paused_jobs_retry_policy cutoff now stamp t).0.considered
unfolding run_paused_jobs_retry_policy
run_paused_jobs_retry_policy-counted cutoff now stamp t =
    let n = length (select (is_due cutoff) t) in
    let all = consider_all-counted now stamp (select (is_due cutoff) t) (start_counts n) t in
    omega (arith, all.0, all.1)
