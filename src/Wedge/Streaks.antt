-- ===== src/Wedge/Streaks.antt =====
-- The polls before a wedge is declared.
use mathlib.Core.Path.{subst}
use wingmen_orchestrator.Prelude.{
  ℕ, zero, suc, ◌+◌, ◌≤◌, ◌≡◌, ◌≢◌, refl, sym, ap, Bool, true, false, Option, none, some, List, [],
  ◌∷◌, ◌⊎◌, inl, inr, nat_eq, arith, Bool-cases,
}
use wingmen_orchestrator.Wedge.{
  Settings, AgentObs, Sig, Entry, Verdict, wedge, wedge_unsafe, candidate, evaluate, sig_of, sig_eq,
  seen, end_episode, count_poll, since, verdict_of,
}

pub record Poll : Type 0 where
  pub at : ℕ
  pub obs : AgentObs

-- The entry after polls of one agent, the newest first.
unfoldable pub follow : Settings → List Poll → Option Entry
unfolding evaluate
follow c [] = none
follow c (p ∷ older) = some (evaluate c (follow c older) p.obs p.at).1

abbrev pub Matches : Settings → Sig → Poll → Type 0
Matches c s p = (p.obs.reachable ≡ true) × (candidate c p.obs ≡ true) × (sig_of p.obs ≡ s)

-- The newest `n` polls are all of a candidate with the signature, and the first of them was then.
abbrev pub Streak : Settings → Sig → ℕ → ℕ → List Poll → Type 0
Streak c s first n [] = ⊥
Streak c s first zero (p ∷ older) = ⊥
Streak c s first (suc zero) (p ∷ older) = Matches c s p × (p.at ≡ first)
Streak c s first (suc (suc n)) (p ∷ older) = Matches c s p × Streak c s first (suc n) older

abbrev Counted : Settings → Option Entry → List Poll → Type 0
Counted c none polls = Unit
Counted c (some e) polls =
    (e.sig ≡ none)
    ⊎ ((s : Sig) × (first : ℕ) × (e.sig ≡ some s)
        × (e.first_seen ≡ some first)
        × Streak c s first e.poll_count polls)

sig_eq_lem : (o : Option Sig) (s : Sig) → sig_eq o s ≡ true → o ≡ some s
sig_eq_lem none s h = cc
sig_eq_lem (some r) s h = ground (arith, h)

longer :
    (c : Settings) (s : Sig) (first n : ℕ) (p : Poll) (older : List Poll)
    → Matches c s p
    → Streak c s first n older
    → Streak c s first (suc n) (p ∷ older)
longer c s first zero p [] m h = absurd h
longer c s first zero p (q ∷ older) m h = absurd h
longer c s first (suc n) p older m h = (m, h)

-- A poll of a candidate, on the entry that was seen.
count_poll-Counted :
    (c : Settings) (p : Poll) (older : List Poll) (e : Entry)
    → Matches c (sig_of p.obs) p
    → Counted c (some e) older
    → Counted c (some (count_poll (sig_of p.obs) p.at e)) (p ∷ older)
count_poll-Counted c p older e m h = elim (Bool-cases (sig_eq e.sig (sig_of p.obs))) [
  | inr f ↦ rw f (inr (sig_of p.obs, p.at, refl, refl, (m, refl)))
  | inl f ↦ rw f (same (sig_eq_lem e.sig (sig_of p.obs) f) h)
]
  where
    same :
        e.sig ≡ some (sig_of p.obs)
        → Counted c (some e) older
        → Counted c (some (record e { poll_count = suc e.poll_count })) (p ∷ older)
    same f (inl g) = absurd (ground (arith, f, g))
    same f (inr (s, first, g, k, t)) =
        let eq : sig_of p.obs ≡ s = ground (arith, f, g) in
        inr (s, first, g, k, longer c s first e.poll_count p older (m.0, m.1, eq) t)

seen-Counted :
    (c : Settings) (o : Option Entry) (now : ℕ) (polls : List Poll)
    → Counted c o polls
    → Counted c (some (seen o now)) polls
seen-Counted c none now polls h = inl refl
seen-Counted c (some e) now polls h = h

module _ (c : Settings) (o : Option Entry) (obs : AgentObs) (now : ℕ) where
  evaluate_counts :
      obs.reachable ≡ true
      → candidate c obs ≡ true
      → (evaluate c o obs now).1 ≡ count_poll (sig_of obs) now (seen o now)
  unfolding evaluate
  evaluate_counts r k = rw (r, k) refl

  evaluate_unreachable : obs.reachable ≡ false → (evaluate c o obs now).1 ≡ end_episode (seen o now)
  unfolding evaluate
  evaluate_unreachable r = rw r refl

  evaluate_healthy : candidate c obs ≡ false → (evaluate c o obs now).1 ≡ end_episode (seen o now)
  unfolding evaluate
  evaluate_healthy k = elim (Bool-cases obs.reachable) [
    | inl r ↦ rw (r, k) refl
    | inr r ↦ rw r refl
  ]

evaluate-Counted :
    (c : Settings) (p : Poll) (older : List Poll) (o : Option Entry)
    → Counted c o older
    → Counted c (some (evaluate c o p.obs p.at).1) (p ∷ older)
evaluate-Counted c p older o h =
    let P = λ (e : Entry). Counted c (some e) (p ∷ older) in
    elim (Bool-cases p.obs.reachable) [
      | inr r ↦ subst P (sym (evaluate_unreachable c o p.obs p.at r)) (inl refl)
      | inl r ↦ elim (Bool-cases (candidate c p.obs)) [
        | inr k ↦ subst P (sym (evaluate_healthy c o p.obs p.at k)) (inl refl)
        | inl k ↦ subst P (sym (evaluate_counts c o p.obs p.at r k)) (
            count_poll-Counted c p older (seen o p.at) (r, k, refl) (seen-Counted c o p.at older h))
      ]
    ]

pub follow-Counted : (c : Settings) (polls : List Poll) → Counted c (follow c polls) polls
unfolding follow
follow-Counted c [] = tt
follow-Counted c (p ∷ older) = evaluate-Counted c p older (follow c older) (follow-Counted c older)

-- The verdicts of a wedge.
abbrev pub is_wedge : Verdict → Bool
is_wedge wedge = true
is_wedge wedge_unsafe = true
is_wedge _ = false

verdict_stable :
    (c : Settings) (obs : AgentObs) (now : ℕ) (e : Entry)
    → is_wedge (verdict_of c obs now e) ≡ true
    → (c.wedge_min_polls ≤ e.poll_count) × (since now e.first_seen + c.wedge_grace_sec ≤ now)
verdict_stable c obs now e h = ground (arith, h)

pub evaluate_wedge :
    (c : Settings) (o : Option Entry) (obs : AgentObs) (now : ℕ)
    → is_wedge (evaluate c o obs now).0 ≡ true
    → (obs.reachable ≡ true)
      × (candidate c obs ≡ true)
      × (is_wedge (verdict_of c obs now (count_poll (sig_of obs) now (seen o now))) ≡ true)
unfolding evaluate
evaluate_wedge c o obs now h = elim (Bool-cases obs.reachable) [
  | inr r ↦ absurd (off_reach r h)
  | inl r ↦ elim (Bool-cases (candidate c obs)) [
    | inl k ↦ (r, k, on r k h)
    | inr k ↦ absurd (off_candidate r k h)
  ]
]
  where
    off_reach : obs.reachable ≡ false → is_wedge (evaluate c o obs now).0 ≡ true → ⊥
    off_reach r = rw r (λ k. cc)

    off_candidate :
        obs.reachable ≡ true
        → candidate c obs ≡ false
        → is_wedge (evaluate c o obs now).0 ≡ true
        → ⊥
    off_candidate r k = rw (r, k) (λ k. cc)

    on :
        obs.reachable ≡ true
        → candidate c obs ≡ true
        → is_wedge (evaluate c o obs now).0 ≡ true
        → is_wedge (verdict_of c obs now (count_poll (sig_of obs) now (seen o now))) ≡ true
    on r k = rw (r, k) (λ w. w)

count_poll-sig : (s : Sig) (now : ℕ) (e : Entry) → (count_poll s now e).sig ≡ some s
count_poll-sig s now e = elim (Bool-cases (sig_eq e.sig s)) [
  | inl f ↦ rw f (sig_eq_lem e.sig s f)
  | inr f ↦ rw f refl
]

abbrev pub Declared : Settings → Poll → List Poll → Type 0
Declared c p older =
    (n : ℕ) × (first : ℕ) × (c.wedge_min_polls ≤ n)
    × (first + c.wedge_grace_sec ≤ p.at)
    × Streak c (sig_of p.obs) first n (p ∷ older)

-- When a poll of an agent, after any others of it, says that it is wedged, safe to nudge or not, it ends
-- a streak of polls of at least the least number, the first of them at least the grace before it; in
-- each of them the agent was reachable and a candidate, with the unread count and composer of this one.
pub wedge-Declared :
    (c : Settings) (p : Poll) (older : List Poll)
    → is_wedge (evaluate c (follow c older) p.obs p.at).0 ≡ true
    → Declared c p older
wedge-Declared c p older h =
    let o = follow c older in
    let w = evaluate_wedge c o p.obs p.at h in
    let e = count_poll (sig_of p.obs) p.at (seen o p.at) in
    let v = verdict_stable c p.obs p.at e w.2 in
    let k =
      count_poll-Counted c p older (seen o p.at) (w.0, w.1, refl)
        (seen-Counted c o p.at older (follow-Counted c older)) in
    declared e v (count_poll-sig (sig_of p.obs) p.at (seen o p.at)) k
  where
    declared :
        (e : Entry)
        → (c.wedge_min_polls ≤ e.poll_count) × (since p.at e.first_seen + c.wedge_grace_sec ≤ p.at)
        → e.sig ≡ some (sig_of p.obs)
        → Counted c (some e) (p ∷ older)
        → Declared c p older
    declared e v f (inl g) = absurd (ground (arith, f, g))
    declared e v f (inr (s, first, g, k, t)) =
        let same : s ≡ sig_of p.obs = ground (arith, f, g) in
        (
          e.poll_count,
          first,
          v.0,
          ground (arith, v.1, k),
          subst (λ x. Streak c x first e.poll_count (p ∷ older)) same t,
        )

-- Where at least two polls are wanted, an agent whose unread count differs from that of the poll before
-- is not declared wedged, more or fewer, however long it has been silent.
pub changed_count :
    (c : Settings) (p q : Poll) (older : List Poll)
    → 2 ≤ c.wedge_min_polls
    → p.obs.bus.unread ≢ q.obs.bus.unread
    → is_wedge (evaluate c (follow c (q ∷ older)) p.obs p.at).0 ≡ false
changed_count c p q older two ne =
    elim (Bool-cases (is_wedge (evaluate c (follow c (q ∷ older)) p.obs p.at).0)) [
      | inr h ↦ h
      | inl h ↦
          let d = wedge-Declared c p (q ∷ older) h in
          absurd (not_declared d.0 d.1 (omega (arith, d.2, two)) d.4)
    ]
  where
    not_declared : (n first : ℕ) → 2 ≤ n → Streak c (sig_of p.obs) first n (p ∷ q ∷ older) → ⊥
    not_declared zero first h t = t
    not_declared (suc zero) first h t = omega arith
    not_declared (suc (suc zero)) first h t = ne (sym (ap (λ (s : Sig). s.unread) t.1.0.2))
    not_declared (suc (suc (suc n))) first h t = ne (sym (ap (λ (s : Sig). s.unread) t.1.0.2))
