-- ===== src/Council/Executor/Runs.antt =====
-- How an execution ends.
use wingmen_orchestrator.Prelude.{
  ap, ℕ, suc, ◌+◌, ◌≤◌, ◌≡◌, ◌∙◌, refl, inl, inr, Bool, true, false, some, arith, length, is_empty,
  Bool-cases, if◌then◌else◌,
}
use wingmen_orchestrator.Council.World.{
  Spec, Status, complete, rolled_back, failed, Tag, execution_complete, execution_failed, posted,
  World, returned, raised, M, then_do, ◌>>◌, add_event, write_status, call_db, update_status,
  post_row,
}
use wingmen_orchestrator.Council.Executor.{
  run_rollback_steps, final_status, after_failure, demand, try_execution, handle_execution,
}
use wingmen_orchestrator.Council.Executor.Host.{
  all_work, all_pass, succeeds, undone_steps, onto, IsHost, IsHost-trans, pre_conditions_run,
  post_conditions_run, operations_run, operations_stop, rollback-IsRolledBack,
}

-- Three calls of the database that succeed.
settled :
    (s : Status) (t : Tag) (w : World)
    → ((n : ℕ) → w.calls ≤ n → w.outside.db_ok n ≡ true)
    → (v : World) × ((update_status s >> post_row t) w ≡ (returned tt, v))
      × (v.status ≡ some s)
      × (undone_steps v.trail ≡ undone_steps w.trail)
unfolding update_status post_row call_db undone_steps
settled s t w ok = (
  record (add_event (posted t) (write_status s w)) { calls = suc (suc (suc w.calls)) },
  rw (
    ok w.calls (omega arith),
    ok (suc w.calls) (omega arith),
    ok (suc (suc w.calls)) (omega arith),
  ),
  refl,
  refl,
)

demand_then :
    (ok : Bool) (k : M (Unit {0})) (v : World)
    → then_do (λ u. k) (demand ok v) ≡ (if ok then k v else (raised, v))
unfolding demand
demand_then true k v = refl
demand_then false k v = refl

module _ (spec : Spec) where
  -- From a failure on, the database answers.
  failure_status :
      (v : World)
      → ((n : ℕ) → v.calls ≤ n → v.outside.db_ok n ≡ true)
      → ((after_failure spec v).1.status ≡ some (final_status spec.rollback))
        × (undone_steps (after_failure spec v).1.trail ≡ onto spec.rollback (undone_steps v.trail))
  unfolding after_failure
  failure_status v ok =
      let h = rollback-IsRolledBack spec.rollback v in
      let (u, e, done, steps) =
        settled (final_status spec.rollback) execution_failed (run_rollback_steps spec.rollback v)
          (λ n l. rw h.outside (ok n (rw h.calls at l))) in
      rw e (done, steps ∙ h.all_run)

  -- What an execution is before its success is written.
  execution_run :
      (w : World)
      → (v : World) × IsHost w v
        × (try_execution spec w ≡ (
            if succeeds w.outside w.looks spec
            then (update_status complete >> post_row execution_complete) v
            else (raised, v)))
  unfolding try_execution demand succeeds
  execution_run w =
      let (v1, e1, h1, l1) = pre_conditions_run spec.pre_conditions w in
      elim (Bool-cases (all_work v1.outside v1.looks spec.operations)) [
        | inr stop ↦
            let (v2, e2, h2) = operations_stop spec.operations v1 stop in
            let none_left : all_work w.outside (w.looks + length spec.pre_conditions)
                  spec.operations
                ≡ false =
              rw (h1.outside, l1) at stop in
            (v2, IsHost-trans h1 h2, rw (none_left, e1, e2))
        | inl go ↦
            let (v2, e2, h2, l2) = operations_run spec.operations v1 go in
            let (v3, e3, h3) = post_conditions_run spec.post_conditions v2 in
            let all_done : all_work w.outside (w.looks + length spec.pre_conditions) spec.operations
                ≡ true =
              rw (h1.outside, l1) at go in
            let passed : all_pass v2.outside v2.looks spec.post_conditions
                ≡ all_pass w.outside (w.looks + length spec.pre_conditions + length spec.operations)
                    spec.post_conditions =
              rw (h2.outside, h1.outside, l2, l1) in
            (
              v3,
              IsHost-trans (IsHost-trans h1 h2) h3,
              rw (all_done, e1, e2, e3, passed)
                  (demand_then _ (update_status complete >> post_row execution_complete) v3),
            )
      ]

  ends_failed :
      (w : World)
      → ((n : ℕ) → w.calls ≤ n → w.outside.db_ok n ≡ true)
      → succeeds w.outside w.looks spec ≡ false
      → ((handle_execution (some spec) w).1.status ≡ some (final_status spec.rollback))
        × (undone_steps (handle_execution (some spec) w).1.trail
            ≡ onto spec.rollback (undone_steps w.trail))
  unfolding handle_execution
  ends_failed w ok e =
      let (v, h, run) = execution_run w in
      let (done, steps) = failure_status v (λ n l. rw h.outside (ok n (rw h.calls at l))) in
      rw (run, e) (done, steps ∙ ap (onto spec.rollback) h.undone_as_before)

  ends_complete :
      (w : World)
      → ((n : ℕ) → w.calls ≤ n → w.outside.db_ok n ≡ true)
      → succeeds w.outside w.looks spec ≡ true
      → ((handle_execution (some spec) w).1.status ≡ some complete)
        × (undone_steps (handle_execution (some spec) w).1.trail ≡ undone_steps w.trail)
  unfolding handle_execution
  ends_complete w ok e =
      let (v, h, run) = execution_run w in
      let (u, s, done, steps) =
        settled complete execution_complete v (λ n l. rw h.outside (ok n (rw h.calls at l))) in
      rw (run, e, s) (done, steps ∙ h.undone_as_before)

-- While the database answers, an execution ends as complete exactly when every operation ends without an
-- exception and every check after them passes, and then no rollback step is run. Otherwise each of them is
-- run, in order, and it ends as failed where there are none, and else as rolled back, whatever becomes of
-- them.
pub handle_execution_status :
    (spec : Spec) (w : World)
    → ((n : ℕ) → w.calls ≤ n → w.outside.db_ok n ≡ true)
    → ((handle_execution (some spec) w).1.status
        ≡ some (
            if succeeds w.outside w.looks spec
            then complete
            else if is_empty spec.rollback
            then failed
            else rolled_back))
      × (undone_steps (handle_execution (some spec) w).1.trail ≡ (
          if succeeds w.outside w.looks spec
          then undone_steps w.trail
          else onto spec.rollback (undone_steps w.trail)))
handle_execution_status spec w ok = elim (Bool-cases (succeeds w.outside w.looks spec)) [
  | inl e ↦ rw e (ends_complete spec w ok e)
  | inr e ↦ rw e (ends_failed spec w ok e)
]

-- The status is written, and the read of the round fails.
half_settled :
    (s : Status) (t : Tag) (w : World)
    → w.outside.db_ok w.calls ≡ true
    → w.outside.db_ok (suc w.calls) ≡ false
    → (update_status s >> post_row t) w
      ≡ (raised, record (write_status s w) { calls = suc (suc w.calls) })
unfolding update_status post_row call_db
half_settled s t w yes_first no_second = rw (yes_first, no_second)

-- If every operation and every check has succeeded and complete has been written, but the next call of the
-- database fails, then each rollback step is run all the same, in order, and while the database answers again
-- the session ends as rolled back, or as failed where there are no steps.
pub complete_undone :
    (spec : Spec) (w : World)
    → succeeds w.outside w.looks spec ≡ true
    → w.outside.db_ok w.calls ≡ true
    → w.outside.db_ok (suc w.calls) ≡ false
    → ((n : ℕ) → suc (suc w.calls) ≤ n → w.outside.db_ok n ≡ true)
    → ((handle_execution (some spec) w).1.status ≡ some (final_status spec.rollback))
      × (undone_steps (handle_execution (some spec) w).1.trail
          ≡ onto spec.rollback (undone_steps w.trail))
unfolding handle_execution undone_steps
complete_undone spec w e first second later =
    let (v, h, run) = execution_run spec w in
    let stop =
      half_settled complete execution_complete v (rw (h.outside, h.calls) first)
        (rw (h.outside, h.calls) second) in
    let (done, steps) =
      failure_status spec (record (write_status complete v) { calls = suc (suc v.calls) })
        (λ n l. rw h.outside (later n (rw h.calls at l))) in
    rw (run, e, stop) (done, steps ∙ ap (onto spec.rollback) h.undone_as_before)
