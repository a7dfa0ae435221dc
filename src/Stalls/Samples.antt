-- ===== src/Stalls/Samples.antt =====
-- Sample sweeps.
use wingmen_orchestrator.Prelude.{ℕ, ◌≡◌, ◌≤◌, refl, Bool, true, false, [], ◌∷◌, ltb}
use wingmen_orchestrator.Stalls.{Job, Net, World, check_each, has_left, recover, check_queue_stalls}
use wingmen_orchestrator.Stalls.Once.{Sweep, count, run_sweeps, run_sweeps_at_most_one}

-- Messages get through to all but job 2.
abbrev net : Net
net = record {
  dedup_ok = λ i. true;
  send_ok = λ i. ltb i 2;
  log_ok = λ i. true;
  recover_ok = λ i. true;
}

abbrev job : ℕ → Bool → Job
job id is_queued = record { id = id; is_queued = is_queued; created_at = 10 }

abbrev sweep : Bool → Sweep
sweep still_queued = record {
  has_chat = true;
  net = net;
  cutoff = 50;
  jobs = job 1 true ∷ job 2 true ∷ [];
  later = job 1 still_queued ∷ [];
}

abbrev quiet : World
quiet = record { log = []; sent = [] }

-- One that leaves the queue and comes back is told of again.
again_test : (run_sweeps (sweep true ∷ sweep false ∷ sweep true ∷ []) quiet).sent ≡ 1 ∷ 1 ∷ []
unfolding run_sweeps check_queue_stalls check_each recover has_left
again_test = refl

run_sweeps_at_most_one_example : count 1 (run_sweeps (sweep true ∷ sweep true ∷ []) quiet).sent ≤ 1
unfolding has_left
run_sweeps_at_most_one_example =
    run_sweeps_at_most_one 1 (sweep true ∷ sweep true ∷ []) quiet
      ((refl, refl, refl), ((refl, refl, refl), tt)) refl
