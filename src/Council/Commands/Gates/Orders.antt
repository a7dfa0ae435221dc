-- ===== src/Council/Commands/Gates/Orders.antt =====
-- Musa's order, and any sequence of polls and commands.
use wingmen_orchestrator.Prelude.{
  suc, ◌≡◌, refl, inl, inr, true, ◌&&◌, Option, none, some, List, [], ◌∷◌, arith, Bool-cases,
  if_holds,
}
use wingmen_orchestrator.Council.World.{
  Status, dry_run_pending, dry_run_rejected, dry_run_complete, dry_run_timeout, executing, complete,
  rolled_back, failed, musa_execute, musa_concur, ordered, posted, World, Outcome, returned, ◌>>◌,
  add_event, write_status, call_db,
}
use wingmen_orchestrator.Council.World.Keeps.{Keeps, bind-Keeps}
use wingmen_orchestrator.Council.Executor.{act_on, poll_executor}
use wingmen_orchestrator.Council.Commands.{
  Command, is_dry_run_complete, may_execute, order_execution, on_found, cmd_execute, end_session,
  post_concur, cmd_concur,
}
use wingmen_orchestrator.Council.Commands.Gates.{reviewed, phase, IsGated, call_db-IsGated}
use wingmen_orchestrator.Council.Commands.Gates.Execution.{handle_execution-IsGated}
use wingmen_orchestrator.Council.Commands.Gates.DryRun.{handle_dry_run-IsGated}

is_complete_lem : (o : Option Status) → is_dry_run_complete o ≡ true → o ≡ some dry_run_complete
is_complete_lem none e = cc
is_complete_lem (some dry_run_pending) e = cc
is_complete_lem (some dry_run_rejected) e = cc
is_complete_lem (some dry_run_timeout) e = cc
is_complete_lem (some complete) e = cc
is_complete_lem (some rolled_back) e = cc
is_complete_lem (some failed) e = cc
is_complete_lem (some executing) e = cc
is_complete_lem (some dry_run_complete) e = refl

may_execute_lem :
    (c : Command) (w : World)
    → may_execute c w ≡ true
    → (c.is_musa ≡ true) × (is_dry_run_complete w.status ≡ true)
may_execute_lem c w e = ground (arith, e)

abbrev called : World → World
called w = record w { calls = suc w.calls }

ordered_write :
    (c : Command) (w : World)
    → may_execute c w ≡ true
    → IsGated w
    → IsGated (write_status executing (add_event (ordered c.is_musa) w))
ordered_write c w e h =
    let (musa, is_complete) = may_execute_lem c w e in
    let status = is_complete_lem w.status is_complete in
    let reviewed_now : phase w.trail ≡ reviewed = rw status at h.fits in
    record { gated = h.gated; fits = rw (musa, reviewed_now) refl }

order_execution-IsGated : (c : Command) → Keeps IsGated (order_execution c)
unfolding order_execution call_db
order_execution-IsGated c w h = elim (Bool-cases (may_execute c w)) [
  | inr e ↦ rw e h
  | inl e ↦ elim (Bool-cases (w.outside.db_ok w.calls)) [
    | inr d ↦ rw (e, d) (record { gated = h.gated; fits = h.fits })
    | inl d ↦
        rw (e, d)
          (call_db-IsGated (add_event (posted musa_execute))
            (λ u k. record { gated = k.gated; fits = k.fits })
            (write_status executing (add_event (ordered c.is_musa) (called w)))
            (ordered_write c (called w) e (record { gated = h.gated; fits = h.fits })))
  ]
]

on_found-IsGated : (c : Command) → Keeps IsGated (on_found c)
unfolding on_found
on_found-IsGated c w h =
    if_holds (λ (r : Outcome (Unit {0}) × World). IsGated r.1) c.is_found
      ((call_db (λ v. v) >> order_execution c) w) (returned tt, w)
      (λ e.
        bind-Keeps IsGated (call_db (λ v. v)) (λ u. order_execution c)
          (call_db-IsGated (λ v. v) (λ v k. k)) (λ u. order_execution-IsGated c) w h)
      (λ e. h)

cmd_execute-IsGated : (c : Command) → Keeps IsGated (cmd_execute c)
unfolding cmd_execute
cmd_execute-IsGated c w h = elim (Bool-cases (c.is_musa && c.has_id && c.has_comment)) [
  | inr e ↦ rw e h
  | inl e ↦ rw e (
      bind-Keeps IsGated (call_db (λ v. v)) (λ u. on_found c) (call_db-IsGated (λ v. v) (λ v k. k))
        (λ u. on_found-IsGated c) w h)
]

end_session-IsGated : Keeps IsGated end_session
unfolding end_session
end_session-IsGated w h =
    if_holds (λ (r : Outcome (Unit {0}) × World). IsGated r.1) w.is_ended (returned tt, w)
      (call_db (λ u. record u { is_ended = true }) w) (λ e. h)
      (λ e.
        call_db-IsGated (λ u. record u { is_ended = true })
          (λ u k. record { gated = k.gated; fits = k.fits }) w h)

post_concur-IsGated : (c : Command) → Keeps IsGated (post_concur c)
unfolding post_concur
post_concur-IsGated c w h = elim (Bool-cases c.is_found) [
  | inr e ↦ rw e h
  | inl e ↦ rw e (
      bind-Keeps IsGated (call_db (add_event (posted musa_concur))) (λ u. end_session)
        (call_db-IsGated (add_event (posted musa_concur))
          (λ v k. record { gated = k.gated; fits = k.fits }))
        (λ u. end_session-IsGated) w h)
]

cmd_concur-IsGated : (c : Command) → Keeps IsGated (cmd_concur c)
unfolding cmd_concur
cmd_concur-IsGated c w h = elim (Bool-cases (c.is_musa && c.has_id)) [
  | inr e ↦ rw e h
  | inl e ↦ rw e (
      bind-Keeps IsGated (call_db (λ v. v)) (λ u. post_concur c)
        (call_db-IsGated (λ v. v) (λ v k. k)) (λ u. post_concur-IsGated c) w h)
]

act_on-IsGated :
    (o : Option Status) (w : World) → w.status ≡ o → IsGated w → IsGated (act_on o w.spec w).1
act_on-IsGated none w e h = h
act_on-IsGated (some dry_run_pending) w e h = handle_dry_run-IsGated w.spec w h
act_on-IsGated (some executing) w e h = handle_execution-IsGated w.spec w e h
act_on-IsGated (some dry_run_rejected) w e h = h
act_on-IsGated (some dry_run_complete) w e h = h
act_on-IsGated (some dry_run_timeout) w e h = h
act_on-IsGated (some complete) w e h = h
act_on-IsGated (some rolled_back) w e h = h
act_on-IsGated (some failed) w e h = h

poll_executor-IsGated : (w : World) → IsGated w → IsGated (poll_executor w)
unfolding poll_executor
poll_executor-IsGated w h = elim (Bool-cases (w.outside.db_ok w.calls)) [
  | inl e ↦
      rw e (act_on-IsGated w.status (called w) refl (record { gated = h.gated; fits = h.fits }))
  | inr e ↦ rw e (record { gated = h.gated; fits = h.fits })
]

-- What the program does to a session, one after the other: the executor's polls, and commands.
pub data Action : Type 0 where
  polled : Action
  executed concurred : Command → Action

unfoldable pub run : List Action → World → World
unfolding poll_executor cmd_execute cmd_concur
run [] w = w
run (polled ∷ rest) w = run rest (poll_executor w)
run (executed c ∷ rest) w = run rest (cmd_execute c w).1
run (concurred c ∷ rest) w = run rest (cmd_concur c w).1

-- Over any polls of the executor and commands by anyone, one after the other, in any order and whatever calls
-- fail, the trail stays gated, as long as no other code writes the session: an operation is tried only after
-- the executor found a review that concurs and does not push back and Musa then gave the order.
pub run-IsGated : (rest : List Action) (w : World) → IsGated w → IsGated (run rest w)
unfolding run
run-IsGated [] w h = h
run-IsGated (polled ∷ rest) w h = run-IsGated rest (poll_executor w) (poll_executor-IsGated w h)
run-IsGated (executed c ∷ rest) w h =
    run-IsGated rest (cmd_execute c w).1 (cmd_execute-IsGated c w h)
run-IsGated (concurred c ∷ rest) w h =
    run-IsGated rest (cmd_concur c w).1 (cmd_concur-IsGated c w h)
