-- ===== src/Alerts/Samples.antt =====
-- Sweeps over sample jobs.
use Prim.Native.Nat.{ℕ}
use wingmen_orchestrator.Prelude.{◌≡◌, refl, true, List, [], ◌∷◌}
use wingmen_orchestrator.Alerts.{
  World, Row, key, urgent, reminder, notify_once, check_paused_job, check_each, check_paused_jobs,
}
use wingmen_orchestrator.Alerts.Once.{Sweep, SentOnce, run_sweeps, run_sweeps-SentOnce}

abbrev quiet : World
quiet = record { outside = λ n. true; calls = 0; log = []; sent = [] }

abbrev old_rows : List Row
old_rows = record { id = 1; since = 10 } ∷ record { id = 2; since = 60 } ∷ []

bands_test :
    (check_paused_jobs true 100 50 old_rows quiet).sent ≡ key reminder 2 ∷ key urgent 1 ∷ []
unfolding check_paused_jobs check_each check_paused_job notify_once
bands_test = refl

abbrev sweep_at : ℕ → ℕ → Sweep
sweep_at one six = record { one_hour_ago = one; six_hours_ago = six; rows = old_rows }

run_sweeps-SentOnce_example :
    SentOnce
      (run_sweeps (sweep_at 100 50 ∷ sweep_at 200 150 ∷ []) quiet).sent
      (run_sweeps (sweep_at 100 50 ∷ sweep_at 200 150 ∷ []) quiet).log
run_sweeps-SentOnce_example =
    run_sweeps-SentOnce (sweep_at 100 50 ∷ sweep_at 200 150 ∷ []) quiet (λ n. refl) tt
