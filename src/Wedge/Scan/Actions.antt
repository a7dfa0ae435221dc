-- ===== src/Wedge/Scan/Actions.antt =====
-- What a scan may do to an agent.
use mathlib.Core.Path.{subst}
use wingmen_orchestrator.Prelude.{
  ℕ, ◌≡◌, refl, sym, Bool, true, false, ◌&&◌, ◌||◌, Option, some, List, [], ◌∷◌, ◌++◌, ◌⊎◌, All,
  Option-cases, length, leb, ◌==◌, nat_eq, string_eq, arith, Bool-cases, inl, inr,
}
use wingmen_orchestrator.Wedge.{
  Settings, AgentObs, Kind, lane, singleton, Entry, Verdict, healthy, unreachable, monitoring,
  wedge, wedge_unsafe, evaluate, genuine_stall, safe_to_nudge, candidate, verdict_of, count_poll,
  sig_of, seen,
}
use wingmen_orchestrator.Wedge.Scan.{
  Page, singleton_escalate, not_clean, repeat, Effect, paged, nudged, reset, Scan, do_nudge,
  reset_lane, is_escalate, is_true, is_singleton, is_set, escalate, holds_back, recover, recent,
  is_menu, log_wedge, declare, act, break_repeat, handle_wedge, by_verdict, handle, page_if,
  pages_wedge,
}

abbrev pub is_reset : Effect → Bool
is_reset (reset s) = true
is_reset _ = false

abbrev pub is_nudge : Effect → Bool
is_nudge (nudged a) = true
is_nudge _ = false

-- The agent is nudged, or its lane's session is reset over a clean worktree, only where the scan is
-- not dry and the composer holds neither a draft nor a menu.
abbrev pub Allowed : Scan → AgentObs → Effect → Type 0
Allowed s obs (paged p a) = (s.alert ≡ true) × (a ≡ obs.agent)
Allowed s obs (nudged a) = (s.dry ≡ false) × (safe_to_nudge obs.composer ≡ true) × (a ≡ obs.agent)
Allowed s obs (reset r) =
    (s.dry ≡ false)
    × (safe_to_nudge obs.composer ≡ true)
    × (is_escalate s.mode ≡ true)
    × (is_singleton obs.kind ≡ false)
    × (obs.session ≡ some r)
    × (is_true (s.worktree_clean (some r)) ≡ true)

pub append-All : (P : Effect → Type 0) (a b : List Effect) → All P a → All P b → All P (a ++ b)
append-All P [] b h k = k
append-All P (x ∷ a) b h k = (h.0, append-All P a b h.1 k)

page_if-Allowed :
    (s : Scan) (obs : AgentObs) (p : Page) → All (Allowed s obs) (page_if s.alert p obs.agent)
page_if-Allowed s obs p = elim (Bool-cases s.alert) [
  | inl e ↦ rw e ((refl, refl), tt)
  | inr e ↦ rw e tt
]

module _ (c : Settings) (s : Scan) (obs : AgentObs) where
  do_nudge-Allowed :
      s.dry ≡ false → safe_to_nudge obs.composer ≡ true → All (Allowed s obs) (do_nudge obs)
  do_nudge-Allowed d m = elim (kind_cases obs.kind) [
    | inl e ↦ rw e (elim (Bool-cases (obs.agent == "cai" || obs.agent == "cc-orchestrator")) [
      | inl f ↦ rw f ((d, m, refl), tt)
      | inr f ↦ rw f tt
    ])
    | inr e ↦ rw e (elim (Option-cases obs.session) [
      | inl f ↦ rw f tt
      | inr (r, f) ↦ elim (Bool-cases (r == "")) [
        | inl b ↦ rw (f, b) tt
        | inr b ↦ rw (f, b) ((d, m, refl), tt)
      ]
    ])
  ]
    where
      kind_cases : (k : Kind) → (k ≡ singleton) ⊎ (k ≡ lane)
      kind_cases singleton = inl refl
      kind_cases lane = inr refl

  reset_lane-Allowed :
      s.dry ≡ false
      → safe_to_nudge obs.composer ≡ true
      → is_escalate s.mode ≡ true
      → is_singleton obs.kind ≡ false
      → is_true (s.worktree_clean obs.session) ≡ true
      → All (Allowed s obs) (reset_lane obs.session)
  reset_lane-Allowed d m e k w = elim (Option-cases obs.session) [
    | inl f ↦ rw f tt
    | inr (r, f) ↦
        let clean : is_true (s.worktree_clean (some r)) ≡ true =
          subst (λ x. is_true (s.worktree_clean x) ≡ true) f w in
        subst (λ x. All (Allowed s obs) (reset_lane x)) (sym f) ((d, m, e, k, f, clean), tt)
  ]

  escalate-Allowed :
      s.dry ≡ false
      → safe_to_nudge obs.composer ≡ true
      → is_escalate s.mode ≡ true
      → All (Allowed s obs) (escalate s obs)
  escalate-Allowed d m e = elim (Bool-cases (is_singleton obs.kind)) [
    | inl k ↦ rw k (page_if-Allowed s obs singleton_escalate)
    | inr k ↦ elim (Bool-cases (is_true (s.worktree_clean obs.session))) [
      | inl w ↦ rw (k, w) (reset_lane-Allowed d m e k w)
      | inr w ↦ rw (k, w) (page_if-Allowed s obs not_clean)
    ]
  ]

  recover-Allowed :
      (e : Entry)
      → s.dry ≡ false
      → safe_to_nudge obs.composer ≡ true
      → All (Allowed s obs) (recover c s obs e).1
  unfolding recover
  recover-Allowed e d m = elim (Bool-cases (is_set e.nudged_at)) [
    | inr n ↦ rw n (do_nudge-Allowed d m)
    | inl n ↦ elim (Bool-cases (holds_back c s e)) [
      | inl h ↦ rw (n, h) tt
      | inr h ↦ rw (n, h) (escalate-Allowed d m (armed h))
    ]
  ]
    where
      armed : holds_back c s e ≡ false → is_escalate s.mode ≡ true
      armed h = ground (arith, h)

  declare-Allowed : (unsafe : Bool) (e : Entry) → All (Allowed s obs) (declare c s obs unsafe e).1
  declare-Allowed unsafe e = elim (Bool-cases (pages_wedge c s obs unsafe e)) [
    | inl p ↦ rw p ((ground (arith, p), refl), tt)
    | inr p ↦ rw p tt
  ]

  act-Allowed :
      (unsafe : Bool) (history : List ℕ) (r : Entry × List Effect)
      → (unsafe ≡ false → safe_to_nudge obs.composer ≡ true)
      → All (Allowed s obs) r.1
      → All (Allowed s obs) (act c s obs unsafe history r).effects
  act-Allowed unsafe history (e, pages) k h =
      elim (Bool-cases (is_menu obs.composer.state || unsafe || s.dry)) [
        | inl b ↦ rw b h
        | inr b ↦ rw b (
            append-All (Allowed s obs) pages (recover c s obs e).1 h
              (recover-Allowed e (ground (arith, b)) (k (ground (arith, b)))))
      ]

  break_repeat-Allowed :
      (history : List ℕ) (e : Entry) → All (Allowed s obs) (break_repeat s obs history e).effects
  break_repeat-Allowed history e = elim (Bool-cases (is_set e.repeat_alerted)) [
    | inl a ↦ rw a tt
    | inr a ↦ rw a (page_if-Allowed s obs repeat)
  ]

  handle_wedge-Allowed :
      (unsafe : Bool) (history : List ℕ) (e : Entry)
      → (unsafe ≡ false → safe_to_nudge obs.composer ≡ true)
      → All (Allowed s obs) (handle_wedge c s obs unsafe history e).effects
  unfolding handle_wedge
  handle_wedge-Allowed unsafe history e k =
      elim (Bool-cases (leb c.repeat_k (length (recent c s.now history)) && genuine_stall c obs)) [
        | inl b ↦ rw b (break_repeat-Allowed history e)
        | inr b ↦ rw b (
            act-Allowed unsafe history (declare c s obs unsafe (log_wedge s.now e)) k
              (declare-Allowed unsafe (log_wedge s.now e)))
      ]

  by_verdict-Allowed :
      (history : List ℕ) (r : Verdict × Entry)
      → (r.0 ≡ wedge → safe_to_nudge obs.composer ≡ true)
      → All (Allowed s obs) (by_verdict c s obs history r).effects
  by_verdict-Allowed history (wedge, e) k = handle_wedge-Allowed false history e (λ u. k refl)
  by_verdict-Allowed history (wedge_unsafe, e) k = handle_wedge-Allowed true history e (λ u. cc)
  by_verdict-Allowed history (healthy, e) k = tt
  by_verdict-Allowed history (unreachable, e) k = tt
  by_verdict-Allowed history (monitoring, e) k = tt

  verdict_safe :
      (now : ℕ) (e : Entry) → verdict_of c obs now e ≡ wedge → safe_to_nudge obs.composer ≡ true
  verdict_safe now e h = ground (arith, h)

  evaluate_safe :
      (entry : Option Entry)
      → (evaluate c entry obs s.now).0 ≡ wedge
      → safe_to_nudge obs.composer ≡ true
  unfolding evaluate
  evaluate_safe entry = elim (Bool-cases obs.reachable) [
    | inr r ↦ rw r (λ h. cc)
    | inl r ↦ elim (Bool-cases (candidate c obs)) [
      | inr k ↦ rw (r, k) (λ h. cc)
      | inl k ↦ rw (r, k) (verdict_safe s.now (count_poll (sig_of obs) s.now (seen entry s.now)))
    ]
  ]

  pub handle-Allowed :
      (entry : Option Entry) (history : List ℕ)
      → All (Allowed s obs) (handle c s obs entry history).effects
  unfolding handle
  handle-Allowed entry history =
      by_verdict-Allowed history (evaluate c entry obs s.now) (evaluate_safe entry)
