-- ===== src/Sla/Once.antt =====
-- The pages for one message, over scans and whatever becomes of the state file between them.
use wingmen_orchestrator.Prelude.{
  ℕ, ◌≤◌, ◌≡◌, ◌⊎◌, refl, inl, inr, true, false, List, ◌∷◌, All, ◌==◌, nat_eq, arith, Bool-cases,
}
use wingmen_orchestrator.Sla.{
  Violation, Entry, Settings, Calls, Event, escalation, nudge, summary, Scan, already_paged_on_bus,
  page_operator,
}
use wingmen_orchestrator.Sla.Rounds.{Round, rounds, is_in, tried, delivered, on_bus, rounds-P}

-- For the message the look-up on the bus succeeds.
abbrev pub IsLookedUp : ℕ → Calls → Type 0
IsLookedUp i c = c.lookup_ok i ≡ true

-- And the PAGED row is written.
abbrev pub IsAudited : ℕ → Calls → Type 0
IsAudited i c = (c.lookup_ok i ≡ true) × (c.audit_ok i ≡ true)

abbrev Once : ℕ → Scan → Type 0
Once i s = (tried i s.trail ≡ 0) ⊎ ((tried i s.trail ≡ 1) × (is_in i s.audits ≡ true))

module _ (i : ℕ) (c : Calls) (set : Settings) (now : ℕ) (v : Violation) (e : Entry) (s : Scan) where
  found_on_bus :
      v.message_id ≡ i
      → c.lookup_ok i ≡ true
      → is_in i s.audits ≡ true
      → already_paged_on_bus c v.message_id s.audits ≡ true
  found_on_bus same l k = rw (same, l) (on_bus c i s.audits k)

  page-Once :
      IsAudited i c
      → already_paged_on_bus c v.message_id s.audits ≡ false
      → Once i s
      → Once i (page_operator false c now v e s)
  unfolding page_operator tried
  page-Once q b h = elim (Bool-cases (v.message_id == i)) [
    | inr other ↦ ground (arith, other, h)
    | inl same ↦
        let eq : v.message_id ≡ i = ground (arith, same) in
        ground (arith, same, eq, q, b, h, found_on_bus eq q.0)
  ]

  -- Nothing more is delivered for a message that is on the bus.
  page-silent :
      (n : ℕ)
      → IsLookedUp i c
      → already_paged_on_bus c v.message_id s.audits ≡ false
      → (is_in i s.audits ≡ true) × (delivered i s.trail ≡ n)
      → (is_in i (page_operator false c now v e s).audits ≡ true)
        × (delivered i (page_operator false c now v e s).trail ≡ n)
  unfolding page_operator delivered
  page-silent n q b h = elim (Bool-cases (v.message_id == i)) [
    | inr other ↦ (ground (arith, other, h), ground (arith, other, h))
    | inl same ↦ let eq : v.message_id ≡ i = ground (arith, same) in cc (found_on_bus eq q h.0, b)
  ]

module _ (i : ℕ) where
  same-Once : (s t : Scan) → s.audits ≡ t.audits → s.trail ≡ t.trail → Once i s → Once i t
  same-Once s t a b k = rw (← a, ← b) k

  later-Once :
      (x : Event) (s : Scan)
      → Once i s
      → tried i (x ∷ s.trail) ≡ tried i s.trail
      → Once i (record s { trail = x ∷ s.trail })
  later-Once x s k e = rw e k

-- Over any scans, whatever state file each of them finds and whatever else fails, the operator is paged at
-- most once for a message, also where it violates in both ways, if for it each look-up on the bus and each
-- PAGED row succeed and no page went before.
pub rounds_page_once :
    (i : ℕ) (rs : List Round) (s : Scan)
    → All (λ r. IsAudited i r.calls) rs
    → tried i s.trail ≡ 0
    → tried i (rounds rs s).trail ≤ 1
unfolding tried
rounds_page_once i rs s q h = ground (
  arith,
  rounds-P (Once i) (IsAudited i) (same-Once i) (λ s v k. later-Once i (escalation v) s k refl)
      (λ s a k. later-Once i (nudge a) s k refl) (λ s k. later-Once i summary s k refl)
      (λ c set now v e s. page-Once i c set now v e s) rs s q (inl h),
)

-- A page that could not be delivered, and whose PAGED row is written all the same, is lost: whatever scans
-- follow, with whatever state files, as long as for its message the look-ups on the bus succeed, no page for
-- it is delivered after.
pub failed_page_lost :
    (c : Calls) (now : ℕ) (v : Violation) (e : Entry) (s : Scan) (rs : List Round)
    → c.send_ok v.message_id ≡ false
    → c.audit_ok v.message_id ≡ true
    → All (λ r. IsLookedUp v.message_id r.calls) rs
    → delivered v.message_id (rounds rs (page_operator false c now v e s)).trail
      ≡ delivered v.message_id s.trail
unfolding page_operator delivered
failed_page_lost c now v e s rs lost written q =
    (rounds-P
      (λ t.
        (is_in v.message_id t.audits ≡ true)
        × (delivered v.message_id t.trail ≡ delivered v.message_id s.trail))
      (IsLookedUp v.message_id) (λ t u a b k. (rw (← a) k.0, rw (← b) k.1)) (λ t w k. k)
      (λ t a k. k) (λ t k. k)
      (λ c' set now' w e' t.
        page-silent v.message_id c' set now' w e' t (delivered v.message_id s.trail))
      rs (page_operator false c now v e s) q
      (ground (arith, written), ground (arith, written, lost))).1
