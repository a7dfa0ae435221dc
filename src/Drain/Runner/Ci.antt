-- ===== src/Drain/Runner/Ci.antt =====
-- The verdict of the local CI.
use wingmen_orchestrator.Prelude.{
  ◌≡◌, ◌≢◌, ◌↔◌, refl, true, List, [], ◌∷◌, All, arith, none, ◌==◌, nat_eq,
}
use wingmen_orchestrator.Drain.Runner.{
  StepRun, exited, timed_out, return_code, first_failure, run_steps, run_local_ci,
}

succeeded : (s : StepRun) → (return_code s == 0) ≡ true → s ≡ exited 0
succeeded (exited rc) h = ground arith
succeeded timed_out h = cc

no_failure_iff :
    (steps : List StepRun)
    → (first_failure (run_steps steps) ≡ none) ↔ All (λ s. s ≡ exited 0) steps
unfolding run_steps
no_failure_iff [] = (λ h. tt, λ h. refl)
no_failure_iff (s ∷ steps) = (
  λ h. (succeeded s (ground arith), (no_failure_iff steps).0 (ground arith)),
  λ h. ground (arith, h.0, (no_failure_iff steps).1 h.1),
)

-- The local CI is green exactly when it has steps and each of them exits with 0: a step that times
-- out, and an empty list of steps, are not green.
pub run_local_ci_green_iff :
    (steps : List StepRun)
    → ((run_local_ci steps).0 ≡ true) ↔ ((steps ≢ []) × All (λ s. s ≡ exited 0) steps)
unfolding run_local_ci
run_local_ci_green_iff [] = (λ h. cc, λ h. absurd (h.0 refl))
run_local_ci_green_iff (s ∷ steps) = (
  λ h. (λ e. cc, (no_failure_iff (s ∷ steps)).0 (ground arith)),
  λ h. ground (arith, (no_failure_iff (s ∷ steps)).1 h.1),
)
