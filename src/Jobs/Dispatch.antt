-- ===== src/Jobs/Dispatch.antt =====
-- wingmen_orch.py: `pick_next_jobs`, `recover_stale_jobs`, `cleanup_zombie_jobs`. The database answers
-- every statement here. Times are in one unit; STALE_JOB_MINUTES is in the cutoff.
pub mod Claims
pub mod Picks
pub mod Passes
pub mod Recovery
use wingmen_orchestrator.Prelude.{
  ℕ, zero, suc, ◌+◌, String, Bool, true, false, not, ◌&&◌, ◌||◌, Option, none, some, List, [], ◌∷◌,
  any, length, take, ltb, leb, ◌==◌, nat_eq, string_eq, if◌then◌else◌,
}
use wingmen_orchestrator.Prelude.Texts.{Text, codes, lower, strip, text_eq}
use wingmen_orchestrator.Jobs.Table.{
  Job, queued, running, failed, is_queued, is_running, select, update_where, returned, update_one,
  for_each,
}

abbrev pub is_due : ℕ → Option ℕ → Bool
is_due now none = true
is_due now (some t) = leb t now

abbrev pub is_candidate : ℕ → Job → Bool
is_candidate now j = is_queued j.status && is_due now j.retry_after

-- ORDER BY priority, created_at
abbrev pub comes_before : Job → Job → Bool
comes_before a b =
    ltb a.priority b.priority || a.priority == b.priority && leb a.created_at b.created_at

unfoldable pub insert : Job → List Job → List Job
insert j [] = j ∷ []
insert j (k ∷ ks) = let rest = insert j ks in if comes_before j k then j ∷ k ∷ ks else k ∷ rest

unfoldable pub sort : List Job → List Job
sort [] = []
sort (j ∷ js) = insert j (sort js)

unfoldable pub candidates : ℕ → List Job → List Job
unfolding select
candidates now t = take 20 (sort (select (is_candidate now) t))

-- The atomic claim: UPDATE status = running WHERE id and status = queued.
abbrev pub is_claimable : ℕ → Job → Bool
is_claimable i j = j.id == i && is_queued j.status

abbrev pub start : ℕ → Job → Job
start now j = record j { status = running; updated_at = now }

unfoldable pub claim : ℕ → ℕ → List Job → List Job × List Job
unfolding update_where returned
claim now i t =
    (returned (is_claimable i) (start now) t, update_where (is_claimable i) (start now) t)

-- The loop over the candidates. `room` is what is left of max_picks, `busy` the repos in
-- `running_repos` and `claimed_repos`.
unfoldable pub claim_each : ℕ → ℕ → List String → List Job → List Job → List Job × List Job
claim_each now room busy [] t = ([], t)
claim_each now zero busy (c ∷ cs) t = ([], t)
claim_each now (suc room) busy (c ∷ cs) t = elim (any (λ r. r == c.repo_name) busy) [
  | true ↦ claim_each now (suc room) busy cs t
  | false ↦ elim ((claim now c.id t).0) [
    | [] ↦ claim_each now (suc room) busy cs (claim now c.id t).1
    | j ∷ js ↦
        let rest = claim_each now room (c.repo_name ∷ busy) cs (claim now c.id t).1 in
        (j ∷ rest.0, rest.1)
  ]
]

-- `runner_enabled` is the kill-switch. The candidates are those of the table `seen`, and the claims
-- meet `t`, which other processes may have changed in between.
unfoldable pub pick_next_jobs :
    Bool → ℕ → List String → ℕ → List Job → List Job → List Job × List Job
unfolding candidates claim_each
pick_next_jobs runner_enabled now running_repos max_picks seen t =
    if max_picks == 0
    then ([], t)
    else if not runner_enabled
    then ([], t)
    else claim_each now max_picks running_repos (candidates now seen) t

abbrev pub is_stale : ℕ → Job → Bool
is_stale cutoff j = is_running j.status && ltb j.updated_at cutoff

abbrev pub always : Job → Bool
always j = true

abbrev pub requeue : Text → Job → Job → Job
requeue note r j = record j { status = queued; result_summary = some note }

unfoldable pub recover_stale_jobs : Text → ℕ → List Job → List Job
unfolding for_each
recover_stale_jobs note cutoff t =
    for_each (update_one always (requeue note)) (select (is_stale cutoff) t) t

abbrev pub zombie_summary : Text
zombie_summary = codes "Zombie: was running when orchestrator restarted"

-- The count written is that of the row as it was read.
abbrev pub bury : Job → Job → Job
bury r j = record j {
  status = failed;
  result_summary = some zombie_summary;
  fail_count = r.fail_count + 1;
}

unfoldable pub cleanup_zombie_jobs : List Job → ℕ × List Job
unfolding for_each
cleanup_zombie_jobs t =
    let zombies = select (λ j. is_running j.status) t in
    (length zombies, for_each (update_one always bury) zombies t)
