-- ===== src/Sla/Rounds.antt =====
-- Scans one after the other, and what they keep.
use wingmen_orchestrator.Prelude.{
  ℕ, suc, ◌-◌, ◌*◌, ◌≡◌, refl, inl, inr, Bool, true, false, not, ◌&&◌, ◌||◌, Option, List, [], ◌∷◌,
  All, any, length, ltb, leb, ◌==◌, nat_eq, arith, Bool-cases, if_holds, if◌then◌else◌,
}
use wingmen_orchestrator.Prelude.Texts.{Text, starts_with, text_eq}
use wingmen_orchestrator.Sla.{
  Kind, Violation, Entry, Settings, Calls, Event, page, escalation, nudge, summary, Scan,
  attended_for, already_paged_on_bus, internal_path_alive, put_entry, add_event, entry_of,
  escalate_eligible, page_operator, escalate, renudge_once, handle, handle_each, sorted, save_state,
  run,
}

-- One scan, and the state file that it finds.
pub record Round : Type 0 where
  pub asked_dry : Bool
  pub has_pen : Bool
  pub write_ok : Bool
  pub calls : Calls
  pub settings : Settings
  pub now : ℕ
  pub violations : List Violation
  pub file : ℕ → Kind → Option Entry

unfoldable pub rounds : List Round → Scan → Scan
unfolding run
rounds [] s = s
rounds (r ∷ rs) s = rounds rs (
    run r.asked_dry r.has_pen r.write_ok r.calls r.settings r.now r.violations
      (record s { msgs = r.file }))

abbrev pub is_in : ℕ → List ℕ → Bool
is_in i is = any (λ k. k == i) is

-- Pages on the message, and those of them that were delivered.
unfoldable pub tried : ℕ → List Event → ℕ
tried i [] = 0
tried i (page v n ok ∷ es) = let rest = tried i es in if v.message_id == i then suc rest else rest
tried i (_ ∷ es) = tried i es

unfoldable pub delivered : ℕ → List Event → ℕ
delivered i [] = 0
delivered i (page v n ok ∷ es) =
    let rest = delivered i es in if v.message_id == i && ok then suc rest else rest
delivered i (_ ∷ es) = delivered i es

pub starts_with_self : (t : Text) → starts_with t t ≡ true
starts_with_self [] = refl
starts_with_self (c ∷ t) = ground (arith, starts_with_self t)

pub on_bus :
    (c : Calls) (i : ℕ) (audits : List ℕ)
    → is_in i audits ≡ true
    → any (λ k. starts_with (c.text_of k) (c.text_of i)) audits ≡ true
on_bus c i [] h = cc
on_bus c i (k ∷ audits) h = elim (Bool-cases (k == i)) [
  | inl e ↦
      let same : k ≡ i = ground (arith, e) in rw same (rw (starts_with_self (c.text_of i)) refl)
  | inr e ↦ ground (arith, e, h, on_bus c i audits)
]

-- What no entry touches is kept if a page that is due keeps it.
module _ (P : Scan → Type 0) (Q : Calls → Type 0)
    (quiet : (s t : Scan) → s.audits ≡ t.audits → s.trail ≡ t.trail → P s → P t)
    (silent : (s : Scan) (v : Violation) → P s → P (record s { trail = escalation v ∷ s.trail }))
    (nudged : (s : Scan) (a : Text) → P s → P (record s { trail = nudge a ∷ s.trail }))
    (tripped : (s : Scan) → P s → P (record s { trail = summary ∷ s.trail }))
    (paged : (c : Calls) (set : Settings) (now : ℕ) (v : Violation) (e : Entry) (s : Scan)
      → Q c
      → already_paged_on_bus c v.message_id s.audits ≡ false
      → P s
      → P (page_operator false c now v e s)) where
  pub dry_page :
      (c : Calls) (now : ℕ) (v : Violation) (e : Entry) (s : Scan)
      → P s
      → P (page_operator true c now v e s)
  unfolding page_operator
  dry_page c now v e s h = quiet s _ refl refl h

  pub event-P :
      (dry : Bool) (x : Event) (s : Scan)
      → P s
      → P (record s { trail = x ∷ s.trail })
      → P (add_event dry x s)
  event-P true x s h k = h
  event-P false x s h k = k

  pub due-P :
      (dry : Bool) (c : Calls) (set : Settings) (now : ℕ) (v : Violation) (e : Entry) (s : Scan)
      → Q c
      → (not dry && already_paged_on_bus c v.message_id s.audits) ≡ false
      → P s
      → P (page_operator dry c now v e s)
  due-P true c set now v e s q b h = dry_page c now v e s h
  due-P false c set now v e s q b h = paged c set now v e s q b h

  pub escalate-P :
      (dry : Bool) (c : Calls) (set : Settings) (now : ℕ) (v : Violation) (e : Entry) (s : Scan)
      → Q c
      → P s
      → P (escalate dry c set now v e s)
  unfolding escalate
  escalate-P dry c set now v e s q h =
      if_holds P (not dry && already_paged_on_bus c v.message_id s.audits) _ _
        (λ b. quiet s _ refl refl h)
        (λ b.
          if_holds P (leb set.max_pages_per_run s.pages_this_run) _ _
            (λ full. quiet s _ refl refl h)
            (λ room.
              if_holds P (internal_path_alive c v.agent && (dry || c.internal_ok v.message_id)) _ _
                (λ i.
                  event-P dry (escalation v)
                    (put_entry v (record e { paged = true; paged_ts = now }) s)
                    (quiet s _ refl refl h)
                    (quiet (record s { trail = escalation v ∷ s.trail }) _ refl refl
                      (silent s v h)))
                (λ i. due-P dry c set now v e s q b h)))

  pub renudge-P :
      (dry : Bool) (set : Settings) (now : ℕ) (v : Violation) (e : Entry) (s : Scan)
      → P s
      → P (renudge_once dry set now v e s)
  unfolding renudge_once
  renudge-P true set now v e s h = quiet s _ (ground arith) (ground arith) h
  renudge-P false set now v e s h =
      if_holds P (ltb (now - e.last_nudge_ts) (set.renudge_backoff_min * 60) && ltb 0 e.nudge_count)
        _ _ (λ b. quiet s _ refl refl h)
        (λ b.
          if_holds P (any (text_eq v.agent) s.nudged_this_cycle) _ _ (λ k. quiet s _ refl refl h)
            (λ k.
              quiet (record s { trail = nudge v.agent ∷ s.trail }) _ refl refl
                (nudged s v.agent h)))

  pub handle_each-P :
      (dry : Bool) (c : Calls) (set : Settings) (now : ℕ) (vs : List Violation) (s : Scan)
      → Q c
      → P s
      → P (handle_each dry c set now vs s)
  unfolding handle_each handle
  handle_each-P dry c set now [] s q h = h
  handle_each-P dry c set now (v ∷ vs) s q h =
      let e = entry_of now (s.msgs v.message_id v.kind) in
      handle_each-P dry c set now vs (handle dry c set now v s) q (
        if_holds P (escalate_eligible set v e && not (attended_for v.kind (c.recheck v.message_id)))
          (escalate dry c set now v e s) (renudge_once dry set now v e s)
          (λ y. escalate-P dry c set now v e s q h) (λ n. renudge-P dry set now v e s h))

  pub run-P :
      (r : Round) (s : Scan)
      → Q r.calls
      → P s
      → P (run r.asked_dry r.has_pen r.write_ok r.calls r.settings r.now r.violations s)
  unfolding run save_state
  run-P r s q h =
      let dry = r.asked_dry || not r.has_pen in
      let started = record s { pages_this_run = 0; nudged_this_cycle = [] } in
      quiet
        (if ltb r.settings.circuit_breaker_max (length r.violations)
          then add_event dry summary started
          else handle_each dry r.calls r.settings r.now (sorted r.violations) started)
        _ refl refl
        (if_holds P (ltb r.settings.circuit_breaker_max (length r.violations)) _ _
          (λ b.
            event-P dry summary started (quiet s _ refl refl h)
              (quiet (record s { trail = summary ∷ s.trail }) _ refl refl (tripped s h)))
          (λ b.
            handle_each-P dry r.calls r.settings r.now (sorted r.violations) started q
              (quiet s _ refl refl h)))

  pub rounds-P : (rs : List Round) (s : Scan) → All (λ r. Q r.calls) rs → P s → P (rounds rs s)
  unfolding rounds
  rounds-P [] s q h = h
  rounds-P (r ∷ rs) s q h =
      rounds-P rs _ q.1 (run-P r (record s { msgs = r.file }) q.0 (quiet s _ refl refl h))
