-- ===== src/Jobs/Retry/Marker.antt =====
-- The marker is in the summary, which every run overwrites.
use wingmen_orchestrator.Prelude.{ℕ, ◌≡◌, refl, true, false, some, [], ◌∷◌, take, arith}
use wingmen_orchestrator.Prelude.Texts.{Text}
use wingmen_orchestrator.Jobs.Table.{Job, paused}
use wingmen_orchestrator.Jobs.Run.{failed_with, settle, fail_job}
use wingmen_orchestrator.Jobs.Run.Lives.{live}
use wingmen_orchestrator.Jobs.Retry.{stale_error, classify, already_auto_retried, retry_job}
use wingmen_orchestrator.Jobs.Retry.Tick.{is_retryable}

-- The policy does not keep to one retry: a job that it has queued again, and that then fails three
-- times with one stale error, is paused with three failures and is retryable again.
pub retried_again :
    (j : Job) (now : ℕ) (stamp : Text) (a b c : ℕ) (error : Text)
    → classify (some (take 2000 error)) ≡ stale_error
    → already_auto_retried (some (take 2000 error)) ≡ false
    → ((live 3
          (retry_job now stamp j j)
          ((a, failed_with error) ∷ (b, failed_with error) ∷ (c, failed_with error) ∷ [])).status
        ≡ paused)
      × ((live 3 (retry_job now stamp j j) (
            (a, failed_with error)
            ∷ (b, failed_with error)
            ∷ (c, failed_with error)
            ∷ [])).fail_count
          ≡ 3)
      × (is_retryable (
            live 3
              (retry_job now stamp j j)
              ((a, failed_with error) ∷ (b, failed_with error) ∷ (c, failed_with error) ∷ []))
          ≡ true)
unfolding live settle fail_job retry_job is_retryable
retried_again j now stamp a b c error s m = (refl, refl, ground (arith, s, m))
