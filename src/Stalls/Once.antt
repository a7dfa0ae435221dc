-- ===== src/Stalls/Once.antt =====
-- The alerts on one job.
use wingmen_orchestrator.Prelude.{
  ℕ, suc, ◌≤◌, ◌≡◌, Bool, true, false, List, [], ◌∷◌, All, ◌==◌, nat_eq, if◌then◌else◌, ◌⊎◌, inl,
  inr, arith, Bool-cases,
}
use wingmen_orchestrator.Stalls.{
  Job, Net, World, is_logged, check_job, check_each, has_left, recover, check_queue_stalls,
}

abbrev pub count : ℕ → List ℕ → ℕ
count i [] = 0
count i (k ∷ ks) = let rest = count i ks in if k == i then suc rest else rest

pub record Sweep : Type 0 where
  pub has_chat : Bool
  pub net : Net
  pub cutoff : ℕ
  pub jobs : List Job
  pub later : List Job

unfoldable pub run_sweeps : List Sweep → World → World
unfolding check_queue_stalls
run_sweeps [] w = w
run_sweeps (s ∷ ss) w =
    run_sweeps ss (check_queue_stalls s.has_chat s.net s.cutoff s.jobs s.later w)

-- For the job, the look-up and the row succeed, and the recovery finds it queued or not at all.
abbrev pub IsQuiet : ℕ → Sweep → Type 0
IsQuiet i s = (s.net.dedup_ok i ≡ true) × (s.net.log_ok i ≡ true) × (has_left i s.later ≡ false)

abbrev Once : ℕ → World → Type 0
Once i w = (count i w.sent ≡ 0) ⊎ ((count i w.sent ≡ 1) × (is_logged i w.log ≡ true))

check_job-Once :
    (i : ℕ) (net : Net) (cutoff : ℕ) (j : Job) (w : World)
    → net.dedup_ok i ≡ true
    → net.log_ok i ≡ true
    → Once i w
    → Once i (check_job net cutoff j w)
check_job-Once i net cutoff j w d l h = elim (Bool-cases (j.id == i)) [
  | inl e ↦ let same : j.id ≡ i = ground (arith, e) in ground (arith, e, same, d, l, h)
  | inr e ↦ ground (arith, e, h)
]

check_each-Once :
    (i : ℕ) (net : Net) (cutoff : ℕ) (js : List Job) (w : World)
    → net.dedup_ok i ≡ true
    → net.log_ok i ≡ true
    → Once i w
    → Once i (check_each net cutoff js w)
unfolding check_each
check_each-Once i net cutoff [] w d l h = h
check_each-Once i net cutoff (j ∷ js) w d l h = elim (Bool-cases j.is_queued) [
  | inl e ↦ rw e (
      check_each-Once i net cutoff js (check_job net cutoff j w) d l
        (check_job-Once i net cutoff j w d l h))
  | inr e ↦ rw e (check_each-Once i net cutoff js w d l h)
]

recover_keeps :
    (i : ℕ) (net : Net) (jobs : List Job) (log : List ℕ)
    → has_left i jobs ≡ false
    → is_logged i log ≡ true
    → is_logged i (recover net jobs log) ≡ true
unfolding recover
recover_keeps i net jobs [] h k = k
recover_keeps i net jobs (x ∷ log) h k = elim (Bool-cases (x == i)) [
  | inl e ↦ let same : x ≡ i = ground (arith, e) in ground (arith, e, same, h)
  | inr e ↦ ground (arith, e, k, recover_keeps i net jobs log h)
]

sweep-Once :
    (i : ℕ) (s : Sweep) (w : World)
    → IsQuiet i s
    → Once i w
    → Once i (check_queue_stalls s.has_chat s.net s.cutoff s.jobs s.later w)
unfolding check_queue_stalls
sweep-Once i s w q h = elim (Bool-cases s.has_chat) [
  | inr e ↦ rw e h
  | inl e ↦ rw e (
      recovered (check_each s.net s.cutoff s.jobs w)
        (check_each-Once i s.net s.cutoff s.jobs w q.0 q.1 h))
]
  where
    recovered : (v : World) → Once i v → Once i (record v { log = recover s.net s.later v.log })
    recovered v (inl none_sent) = inl none_sent
    recovered v (inr (one, logged)) = inr (one, recover_keeps i s.net s.later v.log q.2 logged)

run_sweeps-Once :
    (i : ℕ) (ss : List Sweep) (w : World) → All (IsQuiet i) ss → Once i w → Once i (run_sweeps ss w)
unfolding run_sweeps
run_sweeps-Once i [] w q h = h
run_sweeps-Once i (s ∷ ss) w q h =
    run_sweeps-Once i ss (check_queue_stalls s.has_chat s.net s.cutoff s.jobs s.later w) q.1
      (sweep-Once i s w q.0 h)

-- A job for which no alert was sent gets at most one over any sweeps, whatever fails for the others and
-- whether or not messages get through, while for it each look-up of its key and each row succeed, and no
-- recovery sweep finds it gone from the queue.
pub run_sweeps_at_most_one :
    (i : ℕ) (ss : List Sweep) (w : World)
    → All (IsQuiet i) ss
    → count i w.sent ≡ 0
    → count i (run_sweeps ss w).sent ≤ 1
run_sweeps_at_most_one i ss w q h = ground (arith, run_sweeps-Once i ss w q (inl h))
