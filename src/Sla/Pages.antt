-- ===== src/Sla/Pages.antt =====
-- What one scan does to the operator and to the agents.
use wingmen_orchestrator.Prelude.{
  ℕ, ◌≤◌, ◌≡◌, ◌∙◌, ◌⊎◌, refl, inl, inr, Bool, true, false, not, ◌&&◌, ◌||◌, Option, List, [], ◌∷◌,
  All, length, is_empty, ltb, leb, arith, Bool-cases, if_holds, if◌then◌else◌,
}
use wingmen_orchestrator.Prelude.Texts.{Text}
use wingmen_orchestrator.Sla.{
  Kind, Violation, Entry, Settings, Calls, Event, summary, Scan, attended_for, internal_path_alive,
  add_event, entry_of, escalate_eligible, page_operator, escalate, renudge_once, handle,
  handle_each, sorted, save_state, run,
}
use wingmen_orchestrator.Sla.Actions.{Justified, pages, nudges, Keeps, handle_each-Keeps}

-- The scan alone: what was before it has no bearing on the trail.
abbrev pub scan_of : (ℕ → Kind → Option Entry) → List ℕ → Scan
scan_of msgs audits = record {
  msgs = msgs;
  pages_this_run = 0;
  nudged_this_cycle = [];
  audits = audits;
  trail = [];
}

start-Keeps :
    (set : Settings) (c : Calls) (a : Text) (msgs : ℕ → Kind → Option Entry) (audits : List ℕ)
    → Keeps set c a (scan_of msgs audits)
unfolding pages nudges
start-Keeps set c a msgs audits = record {
  justified = tt;
  counted_pages = omega arith;
  capped = omega arith;
  nudged = omega arith;
}

keeps_dry :
    (c : Calls) (set : Settings) (now : ℕ) (v : Violation) (s : Scan)
    → (handle true c set now v s).trail ≡ s.trail
unfolding handle escalate page_operator renudge_once
keeps_dry c set now v s =
    let e = entry_of now (s.msgs v.message_id v.kind) in
    if_holds (λ (t : Scan). t.trail ≡ s.trail)
      (escalate_eligible set v e && not (attended_for v.kind (c.recheck v.message_id)))
      (escalate true c set now v e s) (renudge_once true set now v e s)
      (λ y.
        if_holds (λ (t : Scan). t.trail ≡ s.trail) (leb set.max_pages_per_run s.pages_this_run) _ _
          (λ full. refl)
          (λ room.
            if_holds (λ (t : Scan). t.trail ≡ s.trail) (internal_path_alive c v.agent && true) _ _
              (λ i. refl) (λ i. refl)))
      (λ n. ground arith)

keeps_each_dry :
    (c : Calls) (set : Settings) (now : ℕ) (vs : List Violation) (s : Scan)
    → (handle_each true c set now vs s).trail ≡ s.trail
unfolding handle_each
keeps_each_dry c set now [] s = refl
keeps_each_dry c set now (v ∷ vs) s =
    keeps_each_dry c set now vs (handle true c set now v s) ∙ keeps_dry c set now v s

abbrev pub trail_of :
    Bool
    → Bool
    → Bool
    → Calls
    → Settings
    → ℕ
    → List Violation
    → (ℕ → Kind → Option Entry)
    → List ℕ
    → List Event
trail_of asked_dry has_pen write_ok c set now vs msgs audits =
    (run asked_dry has_pen write_ok c set now vs (scan_of msgs audits)).trail

-- What a scan has done that the circuit breaker did not stop.
abbrev pub IsLawful : Settings → Calls → Text → List Event → Type 0
IsLawful set c a trail =
    All (Justified set c) trail × (pages trail ≤ set.max_pages_per_run) × (nudges a trail ≤ 1)

-- The breaker trips and there is its summary at most, or it does not and the scan is lawful.
abbrev pub Acts : Settings → Calls → Text → Bool → List Event → Type 0
Acts set c a tripped trail =
    ((tripped ≡ true) × ((trail ≡ []) ⊎ (trail ≡ summary ∷ [])))
    ⊎ ((tripped ≡ false) × IsLawful set c a trail)

scan-Acts :
    (dry : Bool) (c : Calls) (set : Settings) (now : ℕ) (vs : List Violation)
    (msgs : ℕ → Kind → Option Entry) (audits : List ℕ) (a : Text)
    → Acts set c a
        (ltb set.circuit_breaker_max (length vs))
        (if ltb set.circuit_breaker_max (length vs)
          then add_event dry summary (scan_of msgs audits)
          else handle_each dry c set now (sorted vs) (scan_of msgs audits)).trail
scan-Acts dry c set now vs msgs audits a =
    elim (Bool-cases (ltb set.circuit_breaker_max (length vs))) [
      | inl b ↦ rw b (inl (refl, stopped dry))
      | inr b ↦
          let k =
            handle_each-Keeps dry c set now a (sorted vs) (scan_of msgs audits)
              (start-Keeps set c a msgs audits) in
          rw b (
            inr (
              refl,
              (k.justified, omega (arith, k.counted_pages, k.capped), ground (arith, k.nudged)),
            ))
    ]
  where
    stopped :
        (dry : Bool)
        → ((add_event dry summary (scan_of msgs audits)).trail ≡ [])
          ⊎ ((add_event dry summary (scan_of msgs audits)).trail ≡ summary ∷ [])
    stopped true = inl refl
    stopped false = inr refl

silent :
    (dry : Bool) (c : Calls) (set : Settings) (now : ℕ) (vs : List Violation)
    (msgs : ℕ → Kind → Option Entry) (audits : List ℕ)
    → (dry
        && not (
            is_empty
              (if ltb set.circuit_breaker_max (length vs)
                then add_event dry summary (scan_of msgs audits)
                else handle_each dry c set now (sorted vs) (scan_of msgs audits)).trail))
      ≡ false
silent false c set now vs msgs audits = refl
silent true c set now vs msgs audits =
    if_holds (λ (t : Scan). not (is_empty t.trail) ≡ false)
      (ltb set.circuit_breaker_max (length vs)) _ _ (λ b. refl)
      (λ b. rw (keeps_each_dry c set now (sorted vs) (scan_of msgs audits)))

-- Whatever the state file and the bus hold. Where there are more violations than the circuit breaker lets
-- through, a scan acts on none of them and pages the operator once at most, with a summary. Else it pages the
-- operator, or files a stall for the console, only for a violation past the hard threshold of a P0 or P1 which
-- is still unattended when it is looked at again, and pages only after the re-nudges that are asked for; it
-- sends no more pages than its cap and nudges no agent twice. In a dry run or without the pen it does none of
-- this.
pub run_actions :
    (asked_dry has_pen write_ok : Bool) (c : Calls) (set : Settings) (now : ℕ) (vs : List Violation)
    (msgs : ℕ → Kind → Option Entry) (audits : List ℕ) (a : Text)
    → Acts set c a
        (ltb set.circuit_breaker_max (length vs))
        (trail_of asked_dry has_pen write_ok c set now vs msgs audits)
      × (((asked_dry || not has_pen)
            && not (is_empty (trail_of asked_dry has_pen write_ok c set now vs msgs audits)))
          ≡ false)
unfolding run save_state
run_actions asked_dry has_pen write_ok c set now vs msgs audits a = (
  scan-Acts (asked_dry || not has_pen) c set now vs msgs audits a,
  silent (asked_dry || not has_pen) c set now vs msgs audits,
)
