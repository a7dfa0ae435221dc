-- ===== src/Sla/Actions.antt =====
-- The actions that handling the violations takes.
use wingmen_orchestrator.Prelude.{
  ℕ, suc, ◌-◌, ◌*◌, ◌≤◌, ◌≡◌, inl, inr, Bool, true, false, not, ◌&&◌, ◌||◌, List, [], ◌∷◌, All, any,
  ltb, leb, arith, Bool-cases, if_holds, if◌then◌else◌,
}
use wingmen_orchestrator.Prelude.Texts.{Text, text_eq, text_eq_lem}
use wingmen_orchestrator.Sla.{
  Violation, Entry, Settings, Calls, Event, page, escalation, nudge, summary, Scan,
  hard_escalate_min, is_past, attended_for, already_paged_on_bus, internal_path_alive, put_entry,
  add_event, entry_of, escalate_eligible, page_operator, escalate, renudge_once, counted, handle,
  handle_each,
}

-- Long overdue, and unattended when it was looked at again.
abbrev pub IsOverdue : Settings → Calls → Violation → Type 0
IsOverdue set c v =
    (is_past (hard_escalate_min set v.priority) v.elapsed_minutes ≡ true)
    × (attended_for v.kind (c.recheck v.message_id) ≡ false)

abbrev pub Justified : Settings → Calls → Event → Type 0
Justified set c (page v n ok) = IsOverdue set c v × (set.min_nudges_before_escalate ≤ n)
Justified set c (escalation v) = IsOverdue set c v
Justified set c (nudge b) = Unit
Justified set c summary = ⊥

unfoldable pub pages : List Event → ℕ
pages [] = 0
pages (page v n ok ∷ es) = suc (pages es)
pages (_ ∷ es) = pages es

unfoldable pub nudges : Text → List Event → ℕ
nudges a [] = 0
nudges a (nudge b ∷ es) = let rest = nudges a es in if text_eq a b then suc rest else rest
nudges a (_ ∷ es) = nudges a es

pub record Keeps (set : Settings) (c : Calls) (a : Text) (s : Scan) : Type 0 where
  pub justified : All (Justified set c) s.trail
  pub counted_pages : pages s.trail ≤ s.pages_this_run
  pub capped : s.pages_this_run ≤ set.max_pages_per_run
  pub nudged : nudges a s.trail ≤ (if any (text_eq a) s.nudged_this_cycle then 1 else 0)

module _ (dry : Bool) (c : Calls) (set : Settings) (now : ℕ) (a : Text) where
  pub entry-Keeps :
      (v : Violation) (e : Entry) (s : Scan) → Keeps set c a s → Keeps set c a (put_entry v e s)
  entry-Keeps v e s h = record {
    justified = h.justified;
    counted_pages = h.counted_pages;
    capped = h.capped;
    nudged = h.nudged;
  }

  pub page-Keeps :
      (v : Violation) (e : Entry) (s : Scan)
      → IsOverdue set c v
      → set.min_nudges_before_escalate ≤ e.nudge_count
      → suc s.pages_this_run ≤ set.max_pages_per_run
      → Keeps set c a s
      → Keeps set c a (page_operator dry c now v e s)
  unfolding page_operator pages nudges
  page-Keeps v e s o m l h = elim (Bool-cases dry) [
    | inl d ↦ rw d (ground (arith, o, m, l, h))
    | inr d ↦ elim (Bool-cases (c.audit_ok v.message_id)) [
      | inl k ↦
          rw (d, k)
            (record {
              justified = ((o, m), h.justified);
              counted_pages = omega (arith, h.counted_pages);
              capped = l;
              nudged = h.nudged;
            })
      | inr k ↦
          rw (d, k)
            (record {
              justified = ((o, m), h.justified);
              counted_pages = omega (arith, h.counted_pages);
              capped = l;
              nudged = h.nudged;
            })
    ]
  ]

  pub escalate-Keeps :
      (v : Violation) (e : Entry) (s : Scan)
      → IsOverdue set c v
      → set.min_nudges_before_escalate ≤ e.nudge_count
      → Keeps set c a s
      → Keeps set c a (escalate dry c set now v e s)
  unfolding escalate pages nudges
  escalate-Keeps v e s o m h =
      if_holds (Keeps set c a) (not dry && already_paged_on_bus c v.message_id s.audits) _ _
        (λ b. entry-Keeps v (record e { paged = true }) s h)
        (λ b.
          if_holds (Keeps set c a) (leb set.max_pages_per_run s.pages_this_run) _ _
            (λ full. entry-Keeps v e s h)
            (λ room.
              if_holds (Keeps set c a)
                (internal_path_alive c v.agent && (dry || c.internal_ok v.message_id)) _ _
                (λ i. escalated) (λ i. page-Keeps v e s o m (ground (arith, room)) h)))
    where
      escalated :
          Keeps set c a (
            add_event dry
              (escalation v)
              (put_entry v (record e { paged = true; paged_ts = now }) s))
      escalated = elim (Bool-cases dry) [
        | inl d ↦ rw d (entry-Keeps v (record e { paged = true; paged_ts = now }) s h)
        | inr d ↦ rw d (record {
          justified = (o, h.justified);
          counted_pages = h.counted_pages;
          capped = h.capped;
          nudged = h.nudged;
        })
      ]

  -- The count for the agent goes up only with its name on the list.
  pub first_nudge :
      (b : Text) (es : List Event) (ns : List Text)
      → any (text_eq b) ns ≡ false
      → nudges a es ≤ (if any (text_eq a) ns then 1 else 0)
      → nudges a (nudge b ∷ es) ≤ (if text_eq a b || any (text_eq a) ns then 1 else 0)
  unfolding nudges
  first_nudge b es ns fresh h = elim (Bool-cases (text_eq a b)) [
    | inr other ↦ rw other h
    | inl same ↦
        let none_yet : any (text_eq a) ns ≡ false = rw (text_eq_lem a b same) fresh in
        rw same (ground (arith, none_yet, h))
  ]

  pub longer_list :
      (b : Text) (n : ℕ) (ns : List Text)
      → n ≤ (if any (text_eq a) ns then 1 else 0)
      → n ≤ (if text_eq a b || any (text_eq a) ns then 1 else 0)
  longer_list b n ns h = ground (arith, h)

  pub renudge-Keeps :
      (v : Violation) (e : Entry) (s : Scan)
      → Keeps set c a s
      → Keeps set c a (renudge_once dry set now v e s)
  unfolding renudge_once pages
  renudge-Keeps v e s h =
      if_holds (Keeps set c a)
        (ltb (now - e.last_nudge_ts) (set.renudge_backoff_min * 60) && ltb 0 e.nudge_count) _ _
        (λ b. entry-Keeps v e s h)
        (λ b.
          if_holds (Keeps set c a) (any (text_eq v.agent) s.nudged_this_cycle) _ _
            (λ k. entry-Keeps v (counted now e) s h) (λ fresh. nudged_now fresh))
    where
      nudged_now :
          any (text_eq v.agent) s.nudged_this_cycle ≡ false
          → Keeps set c a (record (add_event dry (nudge v.agent) (put_entry v (counted now e) s)) {
            nudged_this_cycle = v.agent ∷ s.nudged_this_cycle;
          })
      nudged_now fresh = elim (Bool-cases dry) [
        | inl d ↦ rw d (record {
          justified = h.justified;
          counted_pages = h.counted_pages;
          capped = h.capped;
          nudged = longer_list v.agent (nudges a s.trail) s.nudged_this_cycle h.nudged;
        })
        | inr d ↦ rw d (record {
          justified = (tt, h.justified);
          counted_pages = h.counted_pages;
          capped = h.capped;
          nudged = first_nudge v.agent s.trail s.nudged_this_cycle fresh h.nudged;
        })
      ]

  pub handle-Keeps :
      (v : Violation) (s : Scan) → Keeps set c a s → Keeps set c a (handle dry c set now v s)
  unfolding handle
  handle-Keeps v s h =
      let e = entry_of now (s.msgs v.message_id v.kind) in
      if_holds (Keeps set c a)
        (escalate_eligible set v e && not (attended_for v.kind (c.recheck v.message_id)))
        (escalate dry c set now v e s) (renudge_once dry set now v e s)
        (λ y. escalate-Keeps v e s (overdue v e y) (enough v e y) h) (λ n. renudge-Keeps v e s h)
    where
      overdue :
          (v : Violation) (e : Entry)
          → (escalate_eligible set v e && not (attended_for v.kind (c.recheck v.message_id))) ≡ true
          → IsOverdue set c v
      overdue v e y = (ground (arith, y), ground (arith, y))

      enough :
          (v : Violation) (e : Entry)
          → (escalate_eligible set v e && not (attended_for v.kind (c.recheck v.message_id))) ≡ true
          → set.min_nudges_before_escalate ≤ e.nudge_count
      enough v e y = ground (arith, y)

  pub handle_each-Keeps :
      (vs : List Violation) (s : Scan)
      → Keeps set c a s
      → Keeps set c a (handle_each dry c set now vs s)
  unfolding handle_each
  handle_each-Keeps [] s h = h
  handle_each-Keeps (v ∷ vs) s h =
      handle_each-Keeps vs (handle dry c set now v s) (handle-Keeps v s h)
