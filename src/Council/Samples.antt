-- ===== src/Council/Samples.antt =====
-- Sample sessions.
use wingmen_orchestrator.Prelude.{
  ℕ, ◌≡◌, refl, true, false, Option, none, some, List, [], ◌∷◌, is_empty, arith, ◌==◌, nat_eq, not,
  if◌then◌else◌,
}
use wingmen_orchestrator.Prelude.Texts.{codes, contains}
use wingmen_orchestrator.Council.World.{
  sql_migration, shell_command, shell_rollback, Spec, Status, dry_run_pending, executing, complete,
  rolled_back, failed, Outside, World, call_db, update_status, post_row,
}
use wingmen_orchestrator.Council.Executor.{
  works, execute_operation, execute_operations, run_check, run_pre_conditions, is_passed,
  run_post_conditions, final_status, demand, try_execution, handle_execution, await_review, settle,
  handle_dry_run, poll_executor,
}
use wingmen_orchestrator.Council.Executor.Host.{all_work, all_pass, succeeds, undone_steps, onto}
use wingmen_orchestrator.Council.Executor.Runs.{handle_execution_status, complete_undone}
use wingmen_orchestrator.Council.Commands.{Command, order_execution, on_found, cmd_execute}
use wingmen_orchestrator.Council.Commands.Gates.{IsGated}
use wingmen_orchestrator.Council.Commands.Gates.Orders.{Action, polled, executed, run, run-IsGated}

abbrev spec : Spec
spec = record {
  pre_conditions = [];
  operations = sql_migration (codes "ALTER") ∷ shell_command (codes "make") (0 ∷ []) ∷ [];
  post_conditions = record { command = codes "make check"; expected = codes "OK" } ∷ [];
  rollback = shell_rollback (codes "git revert") ∷ [];
}

-- The call of the database with number `fault` fails, and the review is there at the second look.
abbrev outside : ℕ → Outside
outside fault = record {
  db_ok = λ n. not (n == fault);
  is_valid = λ s. true;
  review = λ n.
      if n == 0
      then none
      else some (record { is_pushback = false; is_concur = true; created_at = 5 });
  look_seconds = λ n. 1;
  sql_ok = λ n. true;
  exit_code = λ n. some 0;
  write_ok = λ n. true;
  exists = λ n. true;
  sha256 = λ n. [];
  output = λ n. codes "all ok";
}

abbrev session : ℕ → Option Status → World
session fault status = record {
  outside = outside fault;
  calls = 0;
  looks = 0;
  status = status;
  spec = some spec;
  spec_approved = true;
  is_ended = false;
  trail = [];
}

abbrev musa : Command
musa = record { is_musa = true; has_id = true; has_comment = true; is_found = true }

abbrev actions : List Action
actions = polled ∷ executed musa ∷ polled ∷ []

actions_test : (run actions (session 100 (some dry_run_pending))).status ≡ some complete
unfolding run poll_executor handle_dry_run await_review settle cmd_execute on_found order_execution
    handle_execution try_execution run_pre_conditions execute_operations execute_operation works
    run_post_conditions run_check is_passed demand update_status post_row call_db contains
actions_test = refl

run-IsGated_example : IsGated (run actions (session 100 (some dry_run_pending)))
run-IsGated_example =
    run-IsGated actions (session 100 (some dry_run_pending)) (record { gated = tt; fits = tt })

-- All calls from here on succeed.
abbrev later_session : World
later_session = record (session 100 (some executing)) { calls = 200 }

handle_execution_status_example :
    ((handle_execution (some spec) later_session).1.status
      ≡ some (
          if succeeds (outside 100) 0 spec
          then complete
          else if is_empty spec.rollback
          then failed
          else rolled_back))
    × (undone_steps (handle_execution (some spec) later_session).1.trail ≡ (
        if succeeds (outside 100) 0 spec
        then undone_steps []
        else onto spec.rollback (undone_steps [])))
handle_execution_status_example = handle_execution_status spec later_session (λ n l. ground arith)

spec-succeeds : succeeds (outside 1) 0 spec ≡ true
unfolding succeeds all_work all_pass works is_passed contains
spec-succeeds = refl

complete_undone_example :
    ((handle_execution (some spec) (session 1 (some executing))).1.status
      ≡ some (final_status spec.rollback))
    × (undone_steps (handle_execution (some spec) (session 1 (some executing))).1.trail
        ≡ onto spec.rollback (undone_steps []))
complete_undone_example =
    complete_undone spec (session 1 (some executing)) spec-succeeds refl refl (λ n l. ground arith)
