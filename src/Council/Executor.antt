-- ===== src/Council/Executor.antt =====
-- nervous_system/council_executor.py. The texts of the rows are left out, and `calls` and `looks` count the
-- calls of the database and of the host.
pub mod Waiting
pub mod Host
pub mod Runs
use wingmen_orchestrator.Prelude.{
  ℕ, zero, suc, ◌+◌, Bool, true, false, not, ◌&&◌, ◌||◌, Option, none, some, List, [], ◌∷◌, any,
  is_empty, ltb, ◌==◌, nat_eq, if◌then◌else◌,
}
use wingmen_orchestrator.Prelude.Texts.{Text, lower, contains, text_eq}
use wingmen_orchestrator.Council.World.{
  Operation, sql_migration, shell_command, file_create, file_edit, unknown, RollbackOperation,
  Check, Spec, Status, dry_run_pending, dry_run_rejected, dry_run_complete, dry_run_timeout,
  executing, complete, rolled_back, failed, Review, Tag, spec_validation_failed, dry_run,
  dry_run_rejected_row, dry_run_approved_row, dry_run_timeout_row, execution_complete,
  execution_failed, Event, tried, undone, looked, Outside, World, Outcome, returned, raised, M,
  then_do, ◌>>=◌, ◌>>◌, pure, raise, or_else, add_event, update_status, post_row,
}

abbrev is_allowed : Option ℕ → List ℕ → Bool
is_allowed none codes = false
is_allowed (some c) codes = any (λ k. k == c) codes

-- An empty hash is as none.
abbrev is_unchanged : Option Text → Text → Bool
is_unchanged none current = true
is_unchanged (some old) current = is_empty old || text_eq current old

-- Whether the operation ends without an exception, at the n-th look at the host.
unfoldable pub works : Outside → ℕ → Operation → Bool
works o n (sql_migration sql) = not (is_empty sql) && o.sql_ok n
works o n (shell_command cmd allowed) = not (is_empty cmd) && is_allowed (o.exit_code n) allowed
works o n (file_create path content) = not (is_empty path) && o.write_ok n
works o n (file_edit path content old) =
    not (is_empty path || is_empty content)
    && o.exists n
    && is_unchanged old (o.sha256 n)
    && o.write_ok n
works o n unknown = false

unfoldable pub execute_operation : Operation → M (Unit {0})
execute_operation op w =
    let ok = works w.outside w.looks op in
    let done = record (add_event (tried op ok) w) { looks = suc w.looks } in
    if ok then (returned tt, done) else (raised, done)

unfoldable pub execute_operations : List Operation → M (Unit {0})
execute_operations [] = pure tt
execute_operations (op ∷ ops) = execute_operation op >> execute_operations ops

-- An exception in a check is a result like any.
unfoldable pub run_check : M Text
run_check w = (returned (w.outside.output w.looks), record w { looks = suc w.looks })

unfoldable pub run_pre_conditions : List Check → M (Unit {0})
run_pre_conditions [] = pure tt
run_pre_conditions (c ∷ cs) = run_check >>= λ result. run_pre_conditions cs

unfoldable pub is_passed : Check → Text → Bool
is_passed c result = is_empty c.expected || contains (lower result) (lower c.expected)

-- Whether none has failed.
unfoldable pub run_post_conditions : List Check → M Bool
run_post_conditions [] = pure true
run_post_conditions (c ∷ cs) =
    run_check >>= λ result. run_post_conditions cs >>= λ rest. pure (is_passed c result && rest)

-- Each step is tried, whatever becomes of the others. The summary says "Rollback complete" if there are any.
unfoldable pub run_rollback_steps : List RollbackOperation → World → World
run_rollback_steps [] w = w
run_rollback_steps (r ∷ rs) w =
    run_rollback_steps rs (record (add_event (undone r) w) { looks = suc w.looks })

abbrev pub final_status : List RollbackOperation → Status
final_status rollback = if is_empty rollback then failed else rolled_back

unfoldable pub after_failure : Spec → M (Unit {0})
after_failure spec w =
    (update_status (final_status spec.rollback) >> post_row execution_failed)
      (run_rollback_steps spec.rollback w)

unfoldable pub demand : Bool → M (Unit {0})
demand ok = if ok then pure tt else raise

unfoldable pub try_execution : Spec → M (Unit {0})
try_execution spec = do
  run_pre_conditions spec.pre_conditions
  execute_operations spec.operations
  ok ← run_post_conditions spec.post_conditions
  demand ok
  update_status complete
  post_row execution_complete

unfoldable pub handle_execution : Option Spec → M (Unit {0})
handle_execution none = update_status failed
handle_execution (some spec) = λ w. or_else (after_failure spec) (try_execution spec w)

pub data ReviewResult : Type 0 where
  approved rejected timed_out out_of_fuel : ReviewResult

-- What the newest row of claude_ai decides, if it does.
abbrev pub decision : Option Review → Option ReviewResult
decision none = none
decision (some r) =
    if r.is_pushback then some rejected else if r.is_concur then some approved else none

-- A look after a sleep of 30 seconds, at `elapsed` seconds of 300.
unfoldable pub await_review : ℕ → ℕ → M ReviewResult
await_review zero elapsed w = (returned out_of_fuel, w)
await_review (suc fuel) elapsed w =
    let rest = λ (v : World). await_review fuel (elapsed + 30 + w.outside.look_seconds w.looks) v in
    if not (ltb elapsed 300)
    then (returned timed_out, w)
    else let called = record w { calls = suc w.calls } in
      if not (w.outside.db_ok w.calls)
      then (raised, called)
      else let found = w.outside.review w.looks in
        let seen = record (add_event (looked found) called) { looks = suc w.looks } in
        elim (decision found) [ none ↦ rest seen | some d ↦ (returned d, seen) ]

unfoldable pub settle : ReviewResult → M (Unit {0})
settle rejected = update_status dry_run_rejected >> post_row dry_run_rejected_row
settle approved = update_status dry_run_complete >> post_row dry_run_approved_row
settle timed_out = update_status dry_run_timeout >> post_row dry_run_timeout_row
settle out_of_fuel = pure tt

-- 300 / 30 looks are the most, and one more ends the loop.
unfoldable pub handle_dry_run : Option Spec → M (Unit {0})
handle_dry_run none = update_status failed
handle_dry_run (some spec) = λ w.
    if not (w.outside.is_valid spec)
    then (post_row spec_validation_failed >> update_status failed) w
    else (post_row dry_run >> await_review 11 0 >>= settle) w

abbrev pub act_on : Option Status → Option Spec → M (Unit {0})
act_on (some dry_run_pending) spec = handle_dry_run spec
act_on (some executing) spec = handle_execution spec
act_on _ spec = pure tt

-- One poll of one session: the query, then the handler. An exception ends it.
unfoldable pub poll_executor : World → World
poll_executor w =
    let called = record w { calls = suc w.calls } in
    if w.outside.db_ok w.calls then (act_on w.status w.spec called).1 else called
