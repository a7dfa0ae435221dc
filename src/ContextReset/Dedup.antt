-- ===== src/ContextReset/Dedup.antt =====
-- A /clear that was submitted and that nothing confirms.
use wingmen_orchestrator.Prelude.{ℕ, ◌+◌, ◌≡◌, ◌≤◌, ◌∙◌, refl, ap, true, false, none, arith}
use wingmen_orchestrator.ContextReset.{
  Probes, Outcome, do_reset, red, arm_red, AgentCtx, ExecState, Acted, remembered, Spans,
  execute_row, run_executor,
}

abbrev pub red_body : AgentCtx
red_body = record { level = red; action_ok = false; stale = false; auto_reset = true }

-- One cycle on such a body.
cycle :
    (c : Spans) (now : ℕ) (p : Probes) (est : ExecState)
    → est.reset_at + c.reset_dedup ≤ now
    → run_executor c arm_red true now red_body p est ≡ record {
      state = remembered now (do_reset true p) est;
      clear_submitted = (do_reset true p).clear_submitted;
      paged = (do_reset true p).paged;
    }
unfolding run_executor execute_row
cycle c now p est h = ground (arith, h)

forgotten :
    (now : ℕ) (r : Outcome) (est : ExecState)
    → r.ok ≡ false
    → r.confirmation ≡ none
    → remembered now r est ≡ est
forgotten now r est f g = rw (f, g) refl

-- A /clear that was submitted, but failed on the way to its confirmation, because the pane or its login
-- was lost or the boot could not be sent, does not start the span: a later cycle, however soon, that
-- finds the gates open submits another.
pub unconfirmed_redrives :
    (c : Spans) (now later : ℕ) (p q : Probes) (est : ExecState)
    → est.reset_at + c.reset_dedup ≤ now
    → now ≤ later
    → (do_reset true p).clear_submitted ≡ true
    → (do_reset true p).ok ≡ false
    → (do_reset true p).confirmation ≡ none
    → (do_reset true q).clear_submitted ≡ true
    → ((run_executor c arm_red true now red_body p est).clear_submitted ≡ true)
      × ((run_executor c arm_red true later red_body q
            (run_executor c arm_red true now red_body p est).state).clear_submitted
          ≡ true)
unconfirmed_redrives c now later p q est a b s f g t =
    let first = cycle c now p est a in
    let same = ap (λ (x : Acted). x.state) first ∙ forgotten now (do_reset true p) est f g in
    (
      ap (λ (x : Acted). x.clear_submitted) first ∙ s,
      ap (λ (x : ExecState). (run_executor c arm_red true later red_body q x).clear_submitted) same
          ∙ ap (λ (x : Acted). x.clear_submitted) (cycle c later q est (omega arith))
          ∙ t,
    )
