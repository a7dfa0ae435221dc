-- ===== src/Council/Commands/Gates.antt =====
-- The three gates before an operation is run.
pub mod Execution
pub mod DryRun
pub mod Orders
use wingmen_orchestrator.Prelude.{
  ℕ, zero, suc, ◌+◌, ◌≡◌, refl, inl, inr, Bool, true, false, not, ◌&&◌, Option, none, some, List,
  [], ◌∷◌, arith, ltb, Bool-cases, if◌then◌else◌, if_holds,
}
use wingmen_orchestrator.Council.World.{
  Operation, RollbackOperation, Check, Spec, Status, dry_run_pending, dry_run_rejected,
  dry_run_complete, dry_run_timeout, executing, complete, rolled_back, failed, Review, Tag,
  musa_execute, musa_concur, spec_validation_failed, dry_run, dry_run_rejected_row,
  dry_run_approved_row, dry_run_timeout_row, execution_complete, execution_failed, Event, tried,
  undone, looked, became, ordered, posted, World, Outcome, returned, raised, M, then_do, or_else,
  add_event, write_status, call_db, update_status, post_row,
}
use wingmen_orchestrator.Council.World.Keeps.{Keeps, bind-Keeps, or_else-Keeps, call_db-Keeps}
use wingmen_orchestrator.Council.Executor.{
  works, execute_operation, execute_operations, run_check, run_pre_conditions, run_post_conditions,
  is_passed, run_rollback_steps, after_failure, demand, try_execution, handle_execution,
  ReviewResult, approved, rejected, timed_out, out_of_fuel, decision, await_review, settle,
  handle_dry_run, poll_executor,
}
use wingmen_orchestrator.Council.Commands.{
  Command, may_execute, order_execution, on_found, cmd_execute, end_session, post_concur,
  cmd_concur,
}

pub data Phase : Type 0 where
  open_phase reviewed under_order : Phase

-- The look before was at a row that concurs and does not push back.
abbrev pub is_concurred : List Event → Bool
is_concurred (looked (some r) ∷ es) = r.is_concur && not r.is_pushback
is_concurred _ = false

abbrev pub is_ordered : List Event → Bool
is_ordered (ordered m ∷ es) = m
is_ordered _ = false

abbrev pub on_order : Bool → Phase → Phase
on_order true reviewed = under_order
on_order _ _ = open_phase

-- How far the spec has come: a review that concurs, then an order of Musa.
abbrev pub phase : List Event → Phase
phase [] = open_phase
phase (became dry_run_complete ∷ es) = if is_concurred es then reviewed else open_phase
phase (became executing ∷ es) = let before = phase es in on_order (is_ordered es) before
phase (became s ∷ es) = phase es
phase (e ∷ es) = phase es

-- Each operation was tried under an order.
abbrev pub Gated : List Event → Type 0
Gated [] = Unit
Gated (tried op ok ∷ es) = (phase es ≡ under_order) × Gated es
Gated (e ∷ es) = Gated es

abbrev pub Fits : Option Status → Phase → Type 0
Fits (some executing) p = p ≡ under_order
Fits (some dry_run_complete) p = p ≡ reviewed
Fits _ p = Unit

-- The status says no more than the trail.
pub record IsGated (w : World) : Type 0 where
  pub gated : Gated w.trail
  pub fits : Fits w.status (phase w.trail)

-- A status that says nothing on the gates.
abbrev pub IsPlain : Status → Type 0
IsPlain executing = ⊥
IsPlain dry_run_complete = ⊥
IsPlain s = Unit

pub write_status-IsGated :
    (s : Status) (w : World) → IsPlain s → IsGated w → IsGated (write_status s w)
write_status-IsGated dry_run_pending w p h = record { gated = h.gated; fits = tt }
write_status-IsGated dry_run_rejected w p h = record { gated = h.gated; fits = tt }
write_status-IsGated dry_run_timeout w p h = record { gated = h.gated; fits = tt }
write_status-IsGated complete w p h = record { gated = h.gated; fits = tt }
write_status-IsGated rolled_back w p h = record { gated = h.gated; fits = tt }
write_status-IsGated failed w p h = record { gated = h.gated; fits = tt }
write_status-IsGated executing w p h = absurd p
write_status-IsGated dry_run_complete w p h = absurd p

pub call_db-IsGated :
    (act : World → World)
    → ((w : World) → IsGated w → IsGated (act w))
    → Keeps IsGated (call_db act)
call_db-IsGated act acted =
    call_db-Keeps IsGated act (λ w h. record { gated = h.gated; fits = h.fits }) acted

pub update_status-IsGated : (s : Status) → IsPlain s → Keeps IsGated (update_status s)
unfolding update_status
update_status-IsGated s p = call_db-IsGated (write_status s) (λ w h. write_status-IsGated s w p h)

pub post_row-IsGated : (t : Tag) → Keeps IsGated (post_row t)
unfolding post_row
post_row-IsGated t =
    bind-Keeps IsGated (call_db (λ w. w)) (λ u. call_db (add_event (posted t)))
      (call_db-IsGated (λ w. w) (λ w h. h))
      (λ u.
        call_db-IsGated (add_event (posted t)) (λ w h. record { gated = h.gated; fits = h.fits }))
