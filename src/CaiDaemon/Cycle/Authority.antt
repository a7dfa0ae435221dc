-- ===== src/CaiDaemon/Cycle/Authority.antt =====
-- What the kill switch and the dry run hold back.
use wingmen_orchestrator.Prelude.{
  ℕ, ◌≡◌, refl, ◌≢◌, Bool, true, ◌&&◌, some, List, [], ◌∷◌, arith, length,
}
use wingmen_orchestrator.CaiDaemon.Classifier.{Message, Classification, classify}
use wingmen_orchestrator.CaiDaemon.World.{
  live, panic_disabled, Audit, Event, marked_read, acked, pushed, KillSwitch, World, Act, pure,
  branch, audit, get_switch,
}
use wingmen_orchestrator.CaiDaemon.World.Keeps.{
  Keeps, Keeps-pure, Keeps-branch, Keeps-get_switch, Keeps-bind, Keeps-with_switch,
}
use wingmen_orchestrator.CaiDaemon.KillSwitch.{observe, should_act_silently, is_panic}
use wingmen_orchestrator.CaiDaemon.Handlers.{escalate_to_operator}
use wingmen_orchestrator.CaiDaemon.Cycle.{dispatch, process, process_all, run_one_cycle}

-- Under the panic switch a cycle does nothing at all.
pub panic_cycle :
    (dry_run : Bool) (rows : List Message) (w : World)
    → w.switch.state ≡ panic_disabled
    → run_one_cycle dry_run rows w ≡ (some 0, w)
unfolding run_one_cycle
panic_cycle dry_run rows w h = ground arith

-- Messages that the daemon changed or answered by itself.
abbrev pub silent_writes : List Event → List ℕ
silent_writes [] = []
silent_writes (marked_read i ∷ log) = i ∷ silent_writes log
silent_writes (acked i ∷ log) = i ∷ silent_writes log
silent_writes (_ ∷ log) = silent_writes log

-- Messages that were pushed to the operator.
abbrev pub pushes : List Event → List ℕ
pushes [] = []
pushes (pushed i ∷ log) = i ∷ pushes log
pushes (_ ∷ log) = pushes log

-- Not live, and no silent write since `ids`.
abbrev Held : List ℕ → World → Type 0
Held ids w = (w.switch.state ≢ live) × (silent_writes w.log ≡ ids)

module _ (ids : List ℕ) where
  audit-Held : (a : Audit) → Keeps (Held ids) (audit a)
  unfolding audit
  audit-Held a = record { at = λ w h. ground arith }

  observe-Held : (c : ℕ) → Keeps (Held ids) (observe c)
  unfolding observe
  observe-Held c = record { at = λ w h. ground arith }

  escalate-Held : (m : Message) → Keeps (Held ids) (escalate_to_operator m)
  unfolding escalate_to_operator
  escalate-Held m = record { at = λ w h. ground arith }

  -- A branch that only the live state takes.
  Keeps-never :
      {A : Type 0} {m : Act A} (k : KillSwitch)
      → k.state ≢ live
      → (b : Bool) → (b && should_act_silently k) ≡ true
      → Keeps (Held ids) m
  unfolding should_act_silently
  Keeps-never k h b acts = absurd (ground arith)

  dispatch-Held :
      (m : Message) (c : Classification) (k : KillSwitch)
      → k.state ≢ live
      → Keeps (Held ids) (dispatch m c k)
  unfolding dispatch
  dispatch-Held m c k h =
      search (Keeps-branch, Keeps-bind, Keeps-pure, audit-Held, escalate-Held, Keeps-never k h)
        depth 9

  process-Held : (dry_run : Bool) (m : Message) → Keeps (Held ids) (process dry_run m)
  unfolding process
  process-Held dry_run m = Keeps-bind (audit _) _ (audit-Held _) (λ _.
      Keeps-bind (observe _) _ (observe-Held _) (λ _.
        Keeps-with_switch (λ k. branch dry_run (pure tt) (dispatch m (classify m) k))
          (λ w h.
            (Keeps-branch dry_run _ _ (λ _. Keeps-pure tt)
                (λ _. dispatch-Held m (classify m) w.switch h.0)).at
              w h)))

  process_all-Held :
      (dry_run : Bool) (rows : List Message) → Keeps (Held ids) (process_all dry_run rows)
  unfolding process_all
  process_all-Held dry_run [] = Keeps-pure tt
  process_all-Held dry_run (m ∷ rows) =
      Keeps-bind (process dry_run m) _ (process-Held dry_run m) (λ _. process_all-Held dry_run rows)

  cycle-Held :
      (dry_run : Bool) (rows : List Message) → Keeps (Held ids) (run_one_cycle dry_run rows)
  unfolding run_one_cycle
  cycle-Held dry_run rows = Keeps-bind get_switch _ Keeps-get_switch (λ k.
      Keeps-branch (is_panic k.state) _ _ (λ _. Keeps-pure 0)
        (λ _.
          Keeps-bind (process_all dry_run rows) _ (process_all-Held dry_run rows)
            (λ _. Keeps-pure (length rows))))

-- Once the switch is not live, a cycle marks no message read and acknowledges none, and does not
-- return the switch to live.
pub cycle_not_live :
    (dry_run : Bool) (rows : List Message) (w : World)
    → w.switch.state ≢ live
    → ((run_one_cycle dry_run rows w).1.switch.state ≢ live)
      × (silent_writes (run_one_cycle dry_run rows w).1.log ≡ silent_writes w.log)
cycle_not_live dry_run rows w h = (cycle-Held (silent_writes w.log) dry_run rows).at w (h, refl)

-- The same silent writes and pushes as before.
abbrev Quiet : List ℕ → List ℕ → World → Type 0
Quiet ids sent w = (silent_writes w.log ≡ ids) × (pushes w.log ≡ sent)

module _ (ids sent : List ℕ) where
  audit-Quiet : (a : Audit) → Keeps (Quiet ids sent) (audit a)
  unfolding audit
  audit-Quiet a = record { at = λ w h. ground arith }

  observe-Quiet : (c : ℕ) → Keeps (Quiet ids sent) (observe c)
  unfolding observe
  observe-Quiet c = record { at = λ w h. ground arith }

  process-Quiet : (m : Message) → Keeps (Quiet ids sent) (process true m)
  unfolding process
  process-Quiet m = Keeps-bind (audit _) _ (audit-Quiet _) (λ _.
      Keeps-bind (observe _) _ (observe-Quiet _)
        (λ _. Keeps-bind get_switch _ Keeps-get_switch (λ k. Keeps-pure tt)))

  process_all-Quiet : (rows : List Message) → Keeps (Quiet ids sent) (process_all true rows)
  unfolding process_all
  process_all-Quiet [] = Keeps-pure tt
  process_all-Quiet (m ∷ rows) =
      Keeps-bind (process true m) _ (process-Quiet m) (λ _. process_all-Quiet rows)

  cycle-Quiet : (rows : List Message) → Keeps (Quiet ids sent) (run_one_cycle true rows)
  unfolding run_one_cycle
  cycle-Quiet rows = Keeps-bind get_switch _ Keeps-get_switch (λ k.
      Keeps-branch (is_panic k.state) _ _ (λ _. Keeps-pure 0)
        (λ _.
          Keeps-bind (process_all true rows) _ (process_all-Quiet rows)
            (λ _. Keeps-pure (length rows))))

-- A dry run marks nothing read, acknowledges nothing and pushes nothing.
pub dry_run_quiet :
    (rows : List Message) (w : World)
    → (silent_writes (run_one_cycle true rows w).1.log ≡ silent_writes w.log)
      × (pushes (run_one_cycle true rows w).1.log ≡ pushes w.log)
dry_run_quiet rows w = (cycle-Quiet (silent_writes w.log) (pushes w.log) rows).at w (refl, refl)
