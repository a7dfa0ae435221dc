-- ===== src/Jobs/Run/Lives.antt =====
-- How long a job that fails is retried.
use mathlib.Core.Path.{subst}
use wingmen_orchestrator.Prelude.{
  ℕ, suc, ◌+◌, ◌<◌, ◌≤◌, ◌≡◌, refl, ◌⊎◌, inl, inr, Bool, true, false, List, [], ◌∷◌, All,
  Bool-cases, arith, if◌then◌else◌, leb, take, ◌++◌, sym,
}
use wingmen_orchestrator.Prelude.Texts.{Text, codes}
use wingmen_orchestrator.Jobs.Table.{Job, queued, completed, paused, is_queued}
use wingmen_orchestrator.Jobs.Run.{
  Outcome, succeeded, failed_with, crashed, deploy_failed, rate_limited, settle, fail_job,
}

-- The runs of one job, each at a time and with an outcome. A job that is not queued is not claimed,
-- so it has no further run.
unfoldable pub live : ℕ → Job → List (ℕ × Outcome) → Job
unfolding settle
live max_fail j [] = j
live max_fail j ((now, o) ∷ os) =
    let rest = live max_fail (settle max_fail now o j) os in if is_queued j.status then rest else j

abbrev pub is_failure : Outcome → Bool
is_failure (succeeded s) = false
is_failure (rate_limited s t) = false
is_failure _ = true

abbrev pub failures : List (ℕ × Outcome) → ℕ
failures [] = 0
failures ((now, o) ∷ os) = if is_failure o then suc (failures os) else failures os

-- Queued with failures left, paused with none left, or completed.
abbrev pub Sound : ℕ → Job → Type 0
Sound max_fail j =
    ((j.status ≡ queued) × (j.fail_count < max_fail))
    ⊎ (((j.status ≡ paused) × (j.fail_count ≡ max_fail))
        ⊎ ((j.status ≡ completed) × (j.fail_count < max_fail)))

fail_job-Sound : (m now : ℕ) (s : Text) (j : Job) → j.fail_count < m → Sound m (fail_job m now s j)
unfolding fail_job
fail_job-Sound m now s j h = elim (Bool-cases (leb m (j.fail_count + 1))) [
  | inl last ↦ inr (inl (ground arith, ground arith))
  | inr more ↦ inl (ground arith, ground arith)
]

settle-Sound : (m now : ℕ) (o : Outcome) (j : Job) → j.fail_count < m → Sound m (settle m now o j)
unfolding settle
settle-Sound m now (succeeded s) j h = inr (inr (refl, h))
settle-Sound m now (rate_limited s t) j h = inl (refl, h)
settle-Sound m now (failed_with s) j h = fail_job-Sound m now (take 2000 s) j h
settle-Sound m now (crashed s) j h = fail_job-Sound m now (take 2000 s) j h
settle-Sound m now (deploy_failed s) j h =
    fail_job-Sound m now (codes "Deploy failed (code committed OK): " ++ take 500 s) j h

live_run :
    (m now : ℕ) (o : Outcome) (j : Job) (os : List (ℕ × Outcome))
    → j.status ≡ queued
    → live m j ((now, o) ∷ os) ≡ live m (settle m now o j) os
unfolding live
live_run m now o j os q = ground arith

live_over :
    (m : ℕ) (j : Job) (os : List (ℕ × Outcome)) → is_queued j.status ≡ false → live m j os ≡ j
unfolding live
live_over m j [] h = refl
live_over m j ((now, o) ∷ os) h = ground (arith, h)

-- From a queued job with failures left, whatever its runs do, it is at the end queued with failures
-- left, paused with the full count, or completed before it: it is never run again after the last
-- failure allowed.
pub live-Sound : (m : ℕ) (j : Job) (os : List (ℕ × Outcome)) → Sound m j → Sound m (live m j os)
live-Sound m j [] s = unfold live in s
live-Sound m j ((now, o) ∷ os) (inl (q, h)) =
    subst (Sound m) (sym (live_run m now o j os q))
      (live-Sound m (settle m now o j) os (settle-Sound m now o j h))
live-Sound m j ((now, o) ∷ os) (inr (inl (p, h))) =
    subst (Sound m) (sym (live_over m j ((now, o) ∷ os) (ground arith))) (inr (inl (p, h)))
live-Sound m j ((now, o) ∷ os) (inr (inr (c, h))) =
    subst (Sound m) (sym (live_over m j ((now, o) ∷ os) (ground arith))) (inr (inr (c, h)))

abbrev pub succeeds : Outcome → Bool
succeeds (succeeded s) = true
succeeds _ = false

fail_job-status :
    (m now : ℕ) (s : Text) (j : Job)
    → ((m ≤ j.fail_count + 1) × ((fail_job m now s j).status ≡ paused))
      ⊎ (((fail_job m now s j).status ≡ queued)
          × ((fail_job m now s j).fail_count ≡ j.fail_count + 1))
unfolding fail_job
fail_job-status m now s j = elim (Bool-cases (leb m (j.fail_count + 1))) [
  | inl last ↦ inl (ground arith, ground arith)
  | inr more ↦ inr (ground arith, ground arith)
]

-- What a run that does not succeed does to a queued job.
abbrev Step : ℕ → Bool → Job → Job → Type 0
Step m failure j k =
    (k.status ≡ paused)
    ⊎ ((k.status ≡ queued) × (k.fail_count ≡ (if failure then j.fail_count + 1 else j.fail_count)))

fail_job-Step : (m now : ℕ) (s : Text) (j : Job) → Step m true j (fail_job m now s j)
fail_job-Step m now s j = elim (fail_job-status m now s j) [
  | inl (last, p) ↦ inl p
  | inr more ↦ inr more
]

settle-Step :
    (m now : ℕ) (o : Outcome) (j : Job)
    → succeeds o ≡ false
    → Step m (is_failure o) j (settle m now o j)
unfolding settle
settle-Step m now (succeeded s) j h = cc
settle-Step m now (rate_limited s t) j h = inr (refl, refl)
settle-Step m now (failed_with s) j h = fail_job-Step m now (take 2000 s) j
settle-Step m now (crashed s) j h = fail_job-Step m now (take 2000 s) j
settle-Step m now (deploy_failed s) j h =
    fail_job-Step m now (codes "Deploy failed (code committed OK): " ++ take 500 s) j

still_left :
    (m now : ℕ) (o : Outcome) (j : Job)
    → j.fail_count < m
    → (settle m now o j).status ≡ queued
    → (settle m now o j).fail_count < m
still_left m now o j h q = elim (settle-Sound m now o j h) [
  | inl (q', l) ↦ l
  | inr (inl (p, l)) ↦ cc
  | inr (inr (c, l)) ↦ l
]

-- A queued job none of whose runs succeeds is paused once its failures, with those of before, reach
-- the maximum; runs that are rate-limited do not count.
pub failures_pause :
    (m : ℕ) (j : Job) (os : List (ℕ × Outcome))
    → j.status ≡ queued
    → j.fail_count < m
    → All (λ r. succeeds r.1 ≡ false) os
    → m ≤ j.fail_count + failures os
    → (live m j os).status ≡ paused
failures_pause m j [] q h a enough = absurd (omega arith)
failures_pause m j ((now, o) ∷ os) q h a enough = elim (settle-Step m now o j a.0) [
  | inl p ↦
      subst (λ k. k.status ≡ paused) (sym (live_run m now o j os q))
        (subst (λ k. k.status ≡ paused)
          (sym (live_over m (settle m now o j) os (ground (arith, p)))) p)
  | inr (q', count) ↦
      subst (λ k. k.status ≡ paused) (sym (live_run m now o j os q))
        (failures_pause m (settle m now o j) os q' (still_left m now o j h q') a.1
          (ground (arith, count)))
]
