-- ===== src/Jobs/Dispatch/Recovery.antt =====
-- What the sweeps over running jobs leave.
use wingmen_orchestrator.Prelude.{
  ℕ, ◌≡◌, ◌∙◌, refl, ap, List, [], ◌∷◌, map, length, arith, if◌then◌else◌,
}
use wingmen_orchestrator.Prelude.Texts.{Text}
use wingmen_orchestrator.Jobs.Table.{Job, is_running, select, UniqueIds}
use wingmen_orchestrator.Jobs.Table.Sweeps.{swept, for_each-update_one}
use wingmen_orchestrator.Jobs.Dispatch.{
  always, is_stale, requeue, recover_stale_jobs, bury, cleanup_zombie_jobs,
}

abbrev pub recovered : Text → ℕ → Job → Job
recovered note cutoff j = if is_stale cutoff j then requeue note j j else j

abbrev pub buried : Job → Job
buried j = if is_running j.status then bury j j else j

map_same : (f g : Job → Job) → ((j : Job) → f j ≡ g j) → (t : List Job) → map f t ≡ map g t
map_same f g h [] = refl
map_same f g h (j ∷ t) = ap (λ x. x ∷ map f t) (h j) ∙ ap (λ x. g j ∷ x) (map_same f g h t)

-- On a table with unique ids, with nothing else running, the recovery requeues with the note every
-- job that is running and was last updated before the cutoff, and changes no other.
pub recover_stale_jobs-map :
    (note : Text) (cutoff : ℕ) (t : List Job)
    → UniqueIds t
    → recover_stale_jobs note cutoff t ≡ map (recovered note cutoff) t
unfolding recover_stale_jobs
recover_stale_jobs-map note cutoff t u =
    for_each-update_one (is_stale cutoff) always (requeue note) (λ r j. refl) t u
    ∙ map_same (swept (is_stale cutoff) always (requeue note)) (recovered note cutoff)
        (λ j. ground arith) t

-- On a table with unique ids, the cleanup at the start fails every running job with one failure more,
-- changes no other, and returns how many there were.
pub cleanup_zombie_jobs-map :
    (t : List Job)
    → UniqueIds t
    → cleanup_zombie_jobs t ≡ (length (select (λ j. is_running j.status) t), map buried t)
unfolding cleanup_zombie_jobs
cleanup_zombie_jobs-map t u =
    ap (λ x. (length (select (λ j. is_running j.status) t), x))
      (for_each-update_one (λ j. is_running j.status) always bury (λ r j. refl) t u
        ∙ map_same (swept (λ j. is_running j.status) always bury) buried (λ j. ground arith) t)
