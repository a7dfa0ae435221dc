-- ===== src/CaiDaemon/Cycle/SilentLane.antt =====
-- Which messages a cycle may answer by itself.
use wingmen_orchestrator.Prelude.{
  ℕ, ◌≡◌, refl, ◌≢◌, ◌⊎◌, inl, inr, Bool, true, ◌&&◌, List, [], ◌∷◌, All, arith, length,
}
use wingmen_orchestrator.CaiDaemon.Classifier.{Message, Classification, escalate, classify}
use wingmen_orchestrator.CaiDaemon.Classifier.Lanes.{IsSilent, classify-IsSilent}
use wingmen_orchestrator.CaiDaemon.World.{Audit, KillSwitch, World, audit, get_switch}
use wingmen_orchestrator.CaiDaemon.World.Keeps.{
  Keeps, Keeps-pure, Keeps-branch, Keeps-get_switch, Keeps-bind,
}
use wingmen_orchestrator.CaiDaemon.KillSwitch.{observe, is_panic, should_act_silently}
use wingmen_orchestrator.CaiDaemon.Handlers.{
  handle_mark_read_fyi, handle_ack_fyi, escalate_to_operator,
}
use wingmen_orchestrator.CaiDaemon.Cycle.{
  is_mark_read, is_ack, effective_label, dispatch, process, process_all, run_one_cycle,
}
use wingmen_orchestrator.CaiDaemon.Cycle.Authority.{silent_writes}

-- The number is that of a message among the rows which the classifier leaves to the silent lane.
abbrev pub FromSilent : List Message → ℕ → Type 0
FromSilent [] i = ⊥
FromSilent (m ∷ rows) i = ((m.id ≡ i) × IsSilent m) ⊎ FromSilent rows i

abbrev Every : (ℕ → Type 0) → World → Type 0
Every Q w = All Q (silent_writes w.log)

module _ (Q : ℕ → Type 0) where
  audit-Every : (a : Audit) → Keeps (Every Q) (audit a)
  unfolding audit
  audit-Every a = record { at = λ w h. ground arith }

  observe-Every : (c : ℕ) → Keeps (Every Q) (observe c)
  unfolding observe
  observe-Every c = record { at = λ w h. ground arith }

  escalate-Every : (m : Message) → Keeps (Every Q) (escalate_to_operator m)
  unfolding escalate_to_operator
  escalate-Every m = record { at = λ w h. ground arith }

  read-Every : (m : Message) → Q m.id → Keeps (Every Q) (handle_mark_read_fyi m)
  unfolding handle_mark_read_fyi
  read-Every m q = record { at = λ w h. ground arith }

  ack-Every : (m : Message) → Q m.id → Keeps (Every Q) (handle_ack_fyi m)
  unfolding handle_ack_fyi
  ack-Every m q = record { at = λ w h. ground arith }

  dispatch-Every :
      (m : Message) (c : Classification) (k : KillSwitch)
      → (c.label ≢ escalate → Q m.id)
      → Keeps (Every Q) (dispatch m c k)
  unfolding dispatch
  dispatch-Every m c k q =
      search
        (
          Keeps-branch, Keeps-bind, Keeps-pure, audit-Every, escalate-Every, read-allowed,
          ack-allowed,
        )
        depth 9
    where
      read-allowed :
          (is_mark_read (effective_label k c.label) && should_act_silently k) ≡ true
          → Keeps (Every Q) (handle_mark_read_fyi m)
      read-allowed acts = read-Every m (q (ground arith))

      ack-allowed :
          (is_ack (effective_label k c.label) && should_act_silently k) ≡ true
          → Keeps (Every Q) (handle_ack_fyi m)
      ack-allowed acts = ack-Every m (q (ground arith))

  process-Every :
      (dry_run : Bool) (m : Message) → (IsSilent m → Q m.id) → Keeps (Every Q) (process dry_run m)
  unfolding process
  process-Every dry_run m q = Keeps-bind (audit _) _ (audit-Every _) (λ _.
      Keeps-bind (observe _) _ (observe-Every _) (λ _.
        Keeps-bind get_switch _ Keeps-get_switch (λ k.
          Keeps-branch dry_run _ _ (λ _. Keeps-pure tt)
            (λ _. dispatch-Every m (classify m) k (λ l. q (classify-IsSilent m l))))))

  process_all-Every :
      (dry_run : Bool) (rows : List Message)
      → All (λ m. IsSilent m → Q m.id) rows
      → Keeps (Every Q) (process_all dry_run rows)
  unfolding process_all
  process_all-Every dry_run [] q = Keeps-pure tt
  process_all-Every dry_run (m ∷ rows) q =
      Keeps-bind (process dry_run m) _ (process-Every dry_run m q.0)
        (λ _. process_all-Every dry_run rows q.1)

  cycle-Every :
      (dry_run : Bool) (rows : List Message)
      → All (λ m. IsSilent m → Q m.id) rows
      → Keeps (Every Q) (run_one_cycle dry_run rows)
  unfolding run_one_cycle
  cycle-Every dry_run rows q = Keeps-bind get_switch _ Keeps-get_switch (λ k.
      Keeps-branch (is_panic k.state) _ _ (λ _. Keeps-pure 0)
        (λ _.
          Keeps-bind (process_all dry_run rows) _ (process_all-Every dry_run rows q)
            (λ _. Keeps-pure (length rows))))

weaken :
    (P Q : ℕ → Type 0) (rows : List Message)
    → ((i : ℕ) → P i → Q i)
    → All (λ m. IsSilent m → P m.id) rows
    → All (λ m. IsSilent m → Q m.id) rows
weaken P Q [] f h = tt
weaken P Q (m ∷ rows) f h = (λ s. f m.id (h.0 s), weaken P Q rows f h.1)

each_from : (rows : List Message) → All (λ m. IsSilent m → FromSilent rows m.id) rows
each_from [] = tt
each_from (m ∷ rows) = (
  λ s. inl (refl, s),
  weaken (FromSilent rows) (FromSilent (m ∷ rows)) rows (λ i x. inr x) (each_from rows),
)

-- From a log with no silent write, every message that a cycle marks read or acknowledges is one of
-- the cycle's rows which holds no keyword of any category, has neither of the high priorities and
-- has a silent shape.
pub cycle_silent_only :
    (dry_run : Bool) (rows : List Message) (w : World)
    → silent_writes w.log ≡ []
    → All (FromSilent rows) (silent_writes (run_one_cycle dry_run rows w).1.log)
cycle_silent_only dry_run rows w e =
    (cycle-Every (FromSilent rows) dry_run rows (each_from rows)).at w (rw e tt)
