-- ===== src/LongCaller/Sweep/Kills.antt =====
-- Which processes a sweep ends, and what stands in the log before.
use wingmen_orchestrator.Prelude.{
  ℕ, zero, suc, String, ◌≡◌, refl, ◌⊎◌, inl, inr, Bool, Option, none, some, List, [], ◌∷◌,
  Bool-cases, arith,
}
use wingmen_orchestrator.Prelude.Texts.{Text}
use wingmen_orchestrator.LongCaller.Decision.{
  KillDecision, Action, hard_kill, no_kill, monitored, no_action, Reason,
}
use wingmen_orchestrator.LongCaller.Sweep.{
  Event, pre_kill_audit, terminated, World, attempt, kill_caller, kill_if_known, abort_if_recycled,
  actuate, Flagged, decision_for, sweep_one, long_caller_sweep,
}

-- The row is in the log.
abbrev pub Has : Event → List Event → Type 0
Has e [] = ⊥
Has e (x ∷ log) = (x ≡ e) ⊎ Has e log

-- A kill has its audit row before it, and is one that `Q` allows.
abbrev pub Justified : (String → ℕ → Type 0) → Event → List Event → Type 0
Justified Q (terminated name pid) log = Has (pre_kill_audit name pid) log × Q name pid
Justified Q _ log = Unit

-- Every event of the log, which has the last first, is justified.
abbrev pub AllJustified : (String → ℕ → Type 0) → List Event → Type 0
AllJustified Q [] = Unit
AllJustified Q (e ∷ log) = Justified Q e log × AllJustified Q log

module _ (Q : String → ℕ → Type 0) where
  abbrev Kept : (World → Bool × World) → Type 0
  Kept m = (w : World) → AllJustified Q w.log → AllJustified Q (m w).1.log

  kill_caller-Kept : (name : String) (pid : ℕ) → Q name pid → Kept (kill_caller name pid)
  unfolding kill_caller attempt
  kill_caller-Kept name pid q w h = ground arith

  kill_if_known-Kept :
      (o : Option ℕ) (name : String)
      → ((pid : ℕ) → o ≡ some pid → Q name pid)
      → Kept (kill_if_known o name)
  kill_if_known-Kept none name q w h = h
  kill_if_known-Kept (some zero) name q w h = h
  kill_if_known-Kept (some (suc n)) name q w h = kill_caller-Kept name (suc n) (q (suc n) refl) w h

  abort-Kept : (r : Reason) (name : String) → Kept (abort_if_recycled r name)
  unfolding attempt
  abort-Kept r name w h = ground arith

  actuate-Kept :
      (d : KillDecision)
      → (d.action ≡ hard_kill → (pid : ℕ) → d.pid ≡ some pid → Q d.caller_name pid)
      → Kept (actuate d)
  unfolding actuate attempt
  actuate-Kept d q w h = by_action d.action refl
    where
      by_action : (a : Action) → d.action ≡ a → AllJustified Q (actuate d w).1.log
      by_action hard_kill e = rw e (kill_if_known-Kept d.pid d.caller_name (q e) w h)
      by_action no_kill e = rw e (abort-Kept d.reason d.caller_name w h)
      by_action monitored e = rw e (ground arith)
      by_action no_action e = rw e h

  sweep_one-Kept :
      (panic : Option Text) (registry : List (String × Option String)) (f : Flagged)
      → ((decision_for panic registry f).action ≡ hard_kill
          → (pid : ℕ) → (decision_for panic registry f).pid ≡ some pid
          → Q (decision_for panic registry f).caller_name pid)
      → Kept (sweep_one panic registry f)
  unfolding sweep_one attempt
  sweep_one-Kept panic registry f q w h = elim (Bool-cases (w.outside w.calls)) [
    | inl stored ↦ rw stored (actuate-Kept (decision_for panic registry f) q _ (tt, h))
    | inr refused ↦ rw refused (actuate-Kept (decision_for panic registry f) q _ h)
  ]

module _ (panic : Option Text) (registry : List (String × Option String)) where
  -- The decision on one of the rows is to kill this process under this name.
  abbrev pub ToKill : List Flagged → String → ℕ → Type 0
  ToKill [] name pid = ⊥
  ToKill (f ∷ fs) name pid =
      (((decision_for panic registry f).action ≡ hard_kill)
        × ((decision_for panic registry f).pid ≡ some pid)
        × ((decision_for panic registry f).caller_name ≡ name))
      ⊎ ToKill fs name pid

  -- A predicate that holds of what the decisions on the rows kill.
  Allows : (String → ℕ → Type 0) → List Flagged → Type 0
  Allows Q fs = (name : String) (pid : ℕ) → ToKill fs name pid → Q name pid

  sweep-Kept :
      (Q : String → ℕ → Type 0) (fs : List Flagged)
      → Allows Q fs
      → Kept Q (long_caller_sweep panic registry fs)
  unfolding long_caller_sweep Allows
  sweep-Kept Q [] q w h = h
  sweep-Kept Q (f ∷ fs) q w h =
      let one : AllJustified Q (sweep_one panic registry f w).1.log =
        sweep_one-Kept Q panic registry f
          (λ a pid e. q (decision_for panic registry f).caller_name pid (inl (a, e, refl))) w h in
      let rest =
        sweep-Kept Q fs (λ name pid k. q name pid (inr k)) (sweep_one panic registry f w).1 one in
      elim (Bool-cases (sweep_one panic registry f w).0) [
        | inl went_on ↦ ground (arith, rest)
        | inr stopped ↦ ground (arith, one)
      ]

-- From an empty log, after a sweep over any rows, whatever calls fail and also if an exception ends it,
-- every SIGTERM that was sent has its audit row before it, and is one that the decision on one of the
-- rows called for, under that name and for that process.
pub long_caller_sweep-AllJustified :
    (panic : Option Text) (registry : List (String × Option String)) (fs : List Flagged) (w : World)
    → w.log ≡ []
    → AllJustified (ToKill panic registry fs) (long_caller_sweep panic registry fs w).1.log
unfolding Allows
long_caller_sweep-AllJustified panic registry fs w e =
    sweep-Kept panic registry (ToKill panic registry fs) fs (λ name pid k. k) w (rw e tt)
