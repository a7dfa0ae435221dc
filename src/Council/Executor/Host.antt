-- ===== src/Council/Executor/Host.antt =====
-- What the host does in an execution, and in its rollback.
use wingmen_orchestrator.Prelude.{
  ℕ, suc, ◌+◌, ◌≡◌, ◌∙◌, refl, inl, inr, Bool, true, false, ◌&&◌, List, [], ◌∷◌, arith, length,
  Bool-cases,
}
use wingmen_orchestrator.Council.World.{
  Event, undone, Operation, RollbackOperation, Check, Spec, tried, undone, Outside, World, returned,
  raised, add_event,
}
use wingmen_orchestrator.Council.Executor.{
  works, execute_operation, execute_operations, run_check, run_pre_conditions, run_post_conditions,
  is_passed, run_rollback_steps,
}

-- Each operation ends without an exception, at successive looks.
unfoldable pub all_work : Outside → ℕ → List Operation → Bool
all_work o n [] = true
all_work o n (op ∷ ops) = works o n op && all_work o (suc n) ops

unfoldable pub all_pass : Outside → ℕ → List Check → Bool
all_pass o n [] = true
all_pass o n (c ∷ cs) = is_passed c (o.output n) && all_pass o (suc n) cs

-- The whole spec, from the look at which it starts.
unfoldable pub succeeds : Outside → ℕ → Spec → Bool
unfolding all_work all_pass
succeeds o n spec =
    let first = n + length spec.pre_conditions in
    all_work o first spec.operations
    && all_pass o (first + length spec.operations) spec.post_conditions

-- The rollback steps that were run, the latest first.
unfoldable pub undone_steps : List Event → List RollbackOperation
undone_steps [] = []
undone_steps (undone r ∷ es) = r ∷ undone_steps es
undone_steps (_ ∷ es) = undone_steps es

-- Steps run one after the other, after others.
unfoldable pub onto : List RollbackOperation → List RollbackOperation → List RollbackOperation
onto [] done = done
onto (r ∷ rs) done = onto rs (r ∷ done)

-- What the host does leaves the database alone.
pub record IsHost (w v : World) : Type 0 where
  pub outside : v.outside ≡ w.outside
  pub calls : v.calls ≡ w.calls
  pub undone_as_before : undone_steps v.trail ≡ undone_steps w.trail

pub IsHost-refl : (w : World) → IsHost w w
IsHost-refl w = record { outside = refl; calls = refl; undone_as_before = refl }

pub IsHost-trans : {u v w : World} → IsHost u v → IsHost v w → IsHost u w
IsHost-trans p q = record {
  outside = q.outside ∙ p.outside;
  calls = q.calls ∙ p.calls;
  undone_as_before = q.undone_as_before ∙ p.undone_as_before;
}

abbrev pub looked_at : World → World
looked_at w = record w { looks = suc w.looks }

pub pre_conditions_run :
    (cs : List Check) (w : World)
    → (v : World) × (run_pre_conditions cs w ≡ (returned tt, v))
      × IsHost w v
      × (v.looks ≡ w.looks + length cs)
unfolding run_pre_conditions run_check undone_steps
pre_conditions_run [] w = (w, refl, IsHost-refl w, omega arith)
pre_conditions_run (c ∷ cs) w =
    let (v, e, h, l) = pre_conditions_run cs (looked_at w) in
    (
      v,
      e,
      record { outside = h.outside; calls = h.calls; undone_as_before = h.undone_as_before },
      omega (arith, l),
    )

pub post_conditions_run :
    (cs : List Check) (w : World)
    → (v : World) × (run_post_conditions cs w ≡ (returned (all_pass w.outside w.looks cs), v))
      × IsHost w v
unfolding run_post_conditions run_check all_pass undone_steps
post_conditions_run [] w = (w, refl, IsHost-refl w)
post_conditions_run (c ∷ cs) w =
    let (v, e, h) = post_conditions_run cs (looked_at w) in
    (
      v,
      rw e,
      record { outside = h.outside; calls = h.calls; undone_as_before = h.undone_as_before },
    )

pub operations_run :
    (ops : List Operation) (w : World)
    → all_work w.outside w.looks ops ≡ true
    → (v : World) × (execute_operations ops w ≡ (returned tt, v))
      × IsHost w v
      × (v.looks ≡ w.looks + length ops)
unfolding execute_operations execute_operation all_work undone_steps
operations_run [] w h = (w, refl, IsHost-refl w, omega arith)
operations_run (op ∷ ops) w h =
    let first : works w.outside w.looks op ≡ true = ground (arith, h) in
    let (v, e, s, l) =
      operations_run ops (record (add_event (tried op true) w) { looks = suc w.looks })
        (ground (arith, h)) in
    (
      v,
      rw first e,
      record { outside = s.outside; calls = s.calls; undone_as_before = s.undone_as_before },
      omega (arith, l),
    )

pub operations_stop :
    (ops : List Operation) (w : World)
    → all_work w.outside w.looks ops ≡ false
    → (v : World) × (execute_operations ops w ≡ (raised, v)) × IsHost w v
unfolding execute_operations execute_operation all_work undone_steps
operations_stop [] w h = cc
operations_stop (op ∷ ops) w h = elim (Bool-cases (works w.outside w.looks op)) [
  | inr e ↦ (
    record (add_event (tried op false) w) { looks = suc w.looks },
    rw e,
    record { outside = refl; calls = refl; undone_as_before = refl },
  )
  | inl e ↦
      let (v, r, s) =
        operations_stop ops (record (add_event (tried op true) w) { looks = suc w.looks })
          (ground (arith, h, e)) in
      (
        v,
        rw e r,
        record { outside = s.outside; calls = s.calls; undone_as_before = s.undone_as_before },
      )
]

-- The rollback runs each step, and leaves the database alone.
pub record IsRolledBack (rs : List RollbackOperation) (w v : World) : Type 0 where
  pub outside : v.outside ≡ w.outside
  pub calls : v.calls ≡ w.calls
  pub all_run : undone_steps v.trail ≡ onto rs (undone_steps w.trail)

pub rollback-IsRolledBack :
    (rs : List RollbackOperation) (w : World) → IsRolledBack rs w (run_rollback_steps rs w)
unfolding run_rollback_steps undone_steps onto
rollback-IsRolledBack [] w = record { outside = refl; calls = refl; all_run = refl }
rollback-IsRolledBack (r ∷ rs) w =
    let h = rollback-IsRolledBack rs (record (add_event (undone r) w) { looks = suc w.looks }) in
    record { outside = h.outside; calls = h.calls; all_run = h.all_run }
