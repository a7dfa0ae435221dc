-- ===== src/Council/Commands/Gates/Execution.antt =====
-- An execution goes on under its order.
use wingmen_orchestrator.Prelude.{
  suc, ◌≡◌, refl, inl, inr, Bool, true, false, ◌&&◌, Option, none, some, List, [], ◌∷◌, Bool-cases,
}
use wingmen_orchestrator.Council.World.{
  Operation, RollbackOperation, Check, Spec, Status, dry_run_pending, dry_run_rejected,
  dry_run_complete, dry_run_timeout, executing, complete, rolled_back, failed, Tag,
  execution_complete, execution_failed, undone, posted, World, returned, M, ◌>>=◌, ◌>>◌, add_event,
  write_status, call_db, update_status, post_row,
}
use wingmen_orchestrator.Council.World.Keeps.{Keeps, bind-Keeps, or_else-Keeps, call_db-Keeps}
use wingmen_orchestrator.Council.Executor.{
  works, execute_operation, execute_operations, run_check, run_pre_conditions, run_post_conditions,
  is_passed, run_rollback_steps, final_status, after_failure, demand, try_execution,
  handle_execution,
}
use wingmen_orchestrator.Council.Commands.Gates.{
  under_order, phase, Gated, Fits, IsGated, IsPlain, update_status-IsGated,
}

record Under (w : World) : Type 0 where
  gated : Gated w.trail
  order : phase w.trail ≡ under_order
  fits : Fits w.status under_order

Under-IsGated : {w : World} → Under w → IsGated w
Under-IsGated u = record { gated = u.gated; fits = rw u.order u.fits }

call_db-Under :
    (act : World → World) → ((w : World) → Under w → Under (act w)) → Keeps Under (call_db act)
call_db-Under act acted =
    call_db-Keeps Under act (λ w h. record { gated = h.gated; order = h.order; fits = h.fits })
      acted

post_row-Under : (t : Tag) → Keeps Under (post_row t)
unfolding post_row
post_row-Under t =
    bind-Keeps Under (call_db (λ w. w)) (λ u. call_db (add_event (posted t)))
      (call_db-Under (λ w. w) (λ w h. h))
      (λ u.
        call_db-Under (add_event (posted t))
          (λ w h. record { gated = h.gated; order = h.order; fits = h.fits }))

write_status-Under : (s : Status) (w : World) → IsPlain s → Under w → Under (write_status s w)
write_status-Under dry_run_pending w p h = record { gated = h.gated; order = h.order; fits = tt }
write_status-Under dry_run_rejected w p h = record { gated = h.gated; order = h.order; fits = tt }
write_status-Under dry_run_timeout w p h = record { gated = h.gated; order = h.order; fits = tt }
write_status-Under complete w p h = record { gated = h.gated; order = h.order; fits = tt }
write_status-Under rolled_back w p h = record { gated = h.gated; order = h.order; fits = tt }
write_status-Under failed w p h = record { gated = h.gated; order = h.order; fits = tt }
write_status-Under executing w p h = absurd p
write_status-Under dry_run_complete w p h = absurd p

update_status-Under : (s : Status) → IsPlain s → Keeps Under (update_status s)
unfolding update_status
update_status-Under s p = call_db-Under (write_status s) (λ w h. write_status-Under s w p h)

execute_operation-Under : (op : Operation) → Keeps Under (execute_operation op)
unfolding execute_operation
execute_operation-Under op w h = elim (Bool-cases (works w.outside w.looks op)) [
  | inl e ↦ rw e (record { gated = (h.order, h.gated); order = h.order; fits = h.fits })
  | inr e ↦ rw e (record { gated = (h.order, h.gated); order = h.order; fits = h.fits })
]

execute_operations-Under : (ops : List Operation) → Keeps Under (execute_operations ops)
unfolding execute_operations
execute_operations-Under [] w h = h
execute_operations-Under (op ∷ ops) w h =
    bind-Keeps Under (execute_operation op) (λ u. execute_operations ops)
      (execute_operation-Under op) (λ u. execute_operations-Under ops) w h

run_pre_conditions-Under : (cs : List Check) → Keeps Under (run_pre_conditions cs)
unfolding run_pre_conditions run_check
run_pre_conditions-Under [] w h = h
run_pre_conditions-Under (c ∷ cs) w h =
    run_pre_conditions-Under cs (record w { looks = suc w.looks })
      (record { gated = h.gated; order = h.order; fits = h.fits })

run_post_conditions-Under : (cs : List Check) → Keeps Under (run_post_conditions cs)
unfolding run_post_conditions run_check
run_post_conditions-Under [] w h = h
run_post_conditions-Under (c ∷ cs) w h =
    bind-Keeps Under (run_post_conditions cs)
      (λ rest. λ v. (returned (is_passed c (w.outside.output w.looks) && rest), v))
      (run_post_conditions-Under cs) (λ rest v k. k) (record w { looks = suc w.looks })
      (record { gated = h.gated; order = h.order; fits = h.fits })

rollback-Under :
    (rs : List RollbackOperation) (w : World) → Under w → Under (run_rollback_steps rs w)
unfolding run_rollback_steps
rollback-Under [] w h = h
rollback-Under (r ∷ rs) w h =
    rollback-Under rs (record (add_event (undone r) w) { looks = suc w.looks })
      (record { gated = h.gated; order = h.order; fits = h.fits })

after_failure-Under : (spec : Spec) → Keeps Under (after_failure spec)
unfolding after_failure
after_failure-Under spec w h =
    bind-Keeps Under (update_status (final_status spec.rollback)) (λ u. post_row execution_failed)
      (update_status-Under (final_status spec.rollback) (final_plain spec.rollback))
      (λ u. post_row-Under execution_failed) (run_rollback_steps spec.rollback w)
      (rollback-Under spec.rollback w h)
  where
    final_plain : (rs : List RollbackOperation) → IsPlain (final_status rs)
    final_plain [] = tt
    final_plain (r ∷ rs) = tt

demand-Under : (ok : Bool) → Keeps Under (demand ok)
unfolding demand
demand-Under true w h = h
demand-Under false w h = h

completed-Under : Keeps Under (update_status complete >> post_row execution_complete)
completed-Under =
    bind-Keeps Under (update_status complete) (λ u. post_row execution_complete)
      (update_status-Under complete tt) (λ u. post_row-Under execution_complete)

-- The checks after the operations, and the success.
abbrev checked : Spec → M (Unit {0})
checked spec = run_post_conditions spec.post_conditions >>= λ ok.
    demand ok >> (update_status complete >> post_row execution_complete)

checked-Under : (spec : Spec) → Keeps Under (checked spec)
checked-Under spec =
    bind-Keeps Under (run_post_conditions spec.post_conditions)
      (λ ok. demand ok >> (update_status complete >> post_row execution_complete))
      (run_post_conditions-Under spec.post_conditions)
      (λ ok.
        bind-Keeps Under (demand ok) (λ u. update_status complete >> post_row execution_complete)
          (demand-Under ok) (λ u. completed-Under))

try_execution-Under : (spec : Spec) → Keeps Under (try_execution spec)
unfolding try_execution
try_execution-Under spec =
    bind-Keeps Under (run_pre_conditions spec.pre_conditions)
      (λ u. execute_operations spec.operations >> checked spec)
      (run_pre_conditions-Under spec.pre_conditions)
      (λ u.
        bind-Keeps Under (execute_operations spec.operations) (λ v. checked spec)
          (execute_operations-Under spec.operations) (λ v. checked-Under spec))

pub handle_execution-IsGated :
    (spec : Option Spec) (w : World)
    → w.status ≡ some executing
    → IsGated w
    → IsGated (handle_execution spec w).1
unfolding handle_execution
handle_execution-IsGated none w e h = update_status-IsGated failed tt w h
handle_execution-IsGated (some spec) w e h = Under-IsGated (
    or_else-Keeps Under (after_failure spec) (try_execution spec w) (after_failure-Under spec)
      (try_execution-Under spec w started))
  where
    started : Under w
    started = record { gated = h.gated; order = rw e at h.fits; fits = rw e refl }
