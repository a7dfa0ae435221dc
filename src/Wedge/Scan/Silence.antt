-- ===== src/Wedge/Scan/Silence.antt =====
-- The page of the breaker on repeated wedges.
use mathlib.Core.Path.{subst}
use wingmen_orchestrator.Prelude.{
  ℕ, ◌≡◌, ◌∙◌, refl, ap, Bool, true, false, ◌&&◌, ◌+◌, not, Option, none, some, List, [], ◌∷◌,
  length, ltb, leb, if_holds, if◌then◌else◌, nat_eq, string_eq, arith, Bool-cases, inl, inr,
}
use wingmen_orchestrator.Wedge.{
  Settings, AgentObs, Entry, Verdict, healthy, unreachable, monitoring, wedge, wedge_unsafe,
  evaluate, genuine_stall,
}
use wingmen_orchestrator.Wedge.Scan.{
  Effect, Scan, recent, log_wedge, declare, act, break_repeat, handle_wedge, by_verdict, handle,
  is_set, recover, holds_back,
}

-- The mark is left by everything.
evaluate_keeps :
    (c : Settings) (e : Entry) (obs : AgentObs) (now : ℕ)
    → (evaluate c (some e) obs now).1.repeat_alerted ≡ e.repeat_alerted
unfolding evaluate
evaluate_keeps c e obs now = ground (arith)

recover_keeps :
    (c : Settings) (s : Scan) (obs : AgentObs) (e : Entry)
    → (recover c s obs e).0.repeat_alerted ≡ e.repeat_alerted
unfolding recover
recover_keeps c s obs e = elim (Bool-cases (is_set e.nudged_at)) [
  | inr n ↦ rw n refl
  | inl n ↦ elim (Bool-cases (holds_back c s e)) [ inl h ↦ rw (n, h) refl | inr h ↦ rw (n, h) refl ]
]

abbrev IsMarked : Entry → Type 0
IsMarked e = is_set e.repeat_alerted ≡ true

module _ (c : Settings) (s : Scan) (obs : AgentObs) where
  log_keeps : (now : ℕ) (e : Entry) → IsMarked e → IsMarked (log_wedge now e)
  log_keeps now e h = ground (arith, h)

  declare_keeps : (unsafe : Bool) (e : Entry) → IsMarked e → IsMarked (declare c s obs unsafe e).0
  declare_keeps unsafe e h = ground (arith, h)

  act_keeps :
      (unsafe : Bool) (history : List ℕ) (r : Entry × List Effect)
      → IsMarked r.0
      → IsMarked (act c s obs unsafe history r).entry
  act_keeps unsafe history (e, pages) h = ground (arith, h, recover_keeps c s obs e)

  break_keeps :
      (history : List ℕ) (e : Entry) → IsMarked e → IsMarked (break_repeat s obs history e).entry
  break_keeps history e h = rw h h

  -- The breaker trips.
  abbrev pub trips : List ℕ → Bool
  trips history = leb c.repeat_k (length (recent c s.now history)) && genuine_stall c obs

  wedge_keeps :
      (unsafe : Bool) (history : List ℕ) (e : Entry)
      → IsMarked e
      → IsMarked (handle_wedge c s obs unsafe history e).entry
  unfolding handle_wedge
  wedge_keeps unsafe history e h = elim (Bool-cases (trips history)) [
    | inl b ↦ rw b (break_keeps history e h)
    | inr b ↦ rw b (
        act_keeps unsafe history (declare c s obs unsafe (log_wedge s.now e))
          (declare_keeps unsafe (log_wedge s.now e) (log_keeps s.now e h)))
  ]

  verdict_keeps :
      (history : List ℕ) (r : Verdict × Entry)
      → IsMarked r.1
      → IsMarked (by_verdict c s obs history r).entry
  verdict_keeps history (wedge, e) h = wedge_keeps false history e h
  verdict_keeps history (wedge_unsafe, e) h = wedge_keeps true history e h
  verdict_keeps history (healthy, e) h = h
  verdict_keeps history (unreachable, e) h = h
  verdict_keeps history (monitoring, e) h = h

  handle_keeps :
      (history : List ℕ) (e : Entry) → IsMarked e → IsMarked (handle c s obs (some e) history).entry
  unfolding handle
  handle_keeps history e h =
      verdict_keeps history (evaluate c (some e) obs s.now)
        (ap is_set (evaluate_keeps c e obs s.now) ∙ h)

  wedge_silent :
      (unsafe : Bool) (history : List ℕ) (e : Entry)
      → IsMarked e
      → trips history ≡ true
      → (handle_wedge c s obs unsafe history e).effects ≡ []
  unfolding handle_wedge
  wedge_silent unsafe history e h t = rw (t, h) refl

  verdict_silent :
      (history : List ℕ) (r : Verdict × Entry)
      → IsMarked r.1
      → trips history ≡ true
      → (by_verdict c s obs history r).effects ≡ []
  verdict_silent history (wedge, e) h t = wedge_silent false history e h t
  verdict_silent history (wedge_unsafe, e) h t = wedge_silent true history e h t
  verdict_silent history (healthy, e) h t = refl
  verdict_silent history (unreachable, e) h t = refl
  verdict_silent history (monitoring, e) h t = refl

  handle_silent :
      (history : List ℕ) (e : Entry)
      → IsMarked e
      → trips history ≡ true
      → (handle c s obs (some e) history).effects ≡ []
  unfolding handle
  handle_silent history e h t =
      verdict_silent history (evaluate c (some e) obs s.now)
        (ap is_set (evaluate_keeps c e obs s.now) ∙ h) t

-- A scan as it bears on one agent: whether it observes it, and whether it writes the state file.
pub record Watched : Type 0 where
  pub scan : Scan
  pub observed : Option AgentObs
  pub persists : Bool

abbrev entry_after : Settings → Scan → Entry → List ℕ → Option AgentObs → Entry × List ℕ
entry_after c s e history none = (e, history)
entry_after c s e history (some obs) =
    let h = handle c s obs (some e) history in (h.entry, h.history)

-- What is in the file for the agent afterwards, as `save_state` of Wedge.Run leaves it: an entry that has been
-- unseen for too long is dropped.
unfoldable pub file_after : Settings → Watched → Entry → List ℕ → Option (Entry × List ℕ)
unfolding handle
file_after c t e history =
    let r = entry_after c t.scan e history t.observed in
    if not t.persists
    then some (e, history)
    else if ltb t.scan.now (r.0.last_seen + c.state_ttl_sec)
    then some (r.0, recent c t.scan.now r.1)
    else none

-- The entry and the history after scans, unless one of them has dropped the entry.
unfoldable pub watch : Settings → List Watched → Entry → List ℕ → Option (Entry × List ℕ)
unfolding file_after
watch c [] e history = some (e, history)
watch c (t ∷ ts) e history = elim (file_after c t e history) [
  | none ↦ none
  | some r ↦ watch c ts r.0 r.1
]

abbrev Marked : Option (Entry × List ℕ) → Type 0
Marked none = Unit
Marked (some r) = IsMarked r.0

entry_after_keeps :
    (c : Settings) (s : Scan) (e : Entry) (history : List ℕ) (o : Option AgentObs)
    → IsMarked e
    → IsMarked (entry_after c s e history o).0
entry_after_keeps c s e history none h = h
entry_after_keeps c s e history (some obs) h = handle_keeps c s obs history e h

file_keeps :
    (c : Settings) (t : Watched) (e : Entry) (history : List ℕ)
    → IsMarked e
    → Marked (file_after c t e history)
unfolding file_after
file_keeps c t e history h =
    if_holds Marked (not t.persists) _ _ (λ k. h)
      (λ k.
        if_holds Marked
          (ltb t.scan.now
            ((entry_after c t.scan e history t.observed).0.last_seen + c.state_ttl_sec))
          _ _ (λ y. entry_after_keeps c t.scan e history t.observed h) (λ n. tt))

watch_keeps :
    (c : Settings) (ts : List Watched) (e : Entry) (history : List ℕ)
    → IsMarked e
    → Marked (watch c ts e history)
unfolding watch
watch_keeps c [] e history h = h
watch_keeps c (t ∷ ts) e history h =
    onward (file_after c t e history) (file_keeps c t e history h) (λ q. watch_keeps c ts q.0 q.1)
  where
    onward :
        (r : Option (Entry × List ℕ))
        → Marked r
        → ((q : Entry × List ℕ) → IsMarked q.0 → Marked (watch c ts q.0 q.1))
        → Marked (elim r [ none ↦ none | some q ↦ watch c ts q.0 q.1 ])
    onward none m k = tt
    onward (some q) m k = k q m

-- Once the breaker has paged for an agent, it is silent on it: after any further scans, whether they observe the
-- agent or not, and so in any later episode, a scan at which the breaker trips neither pages, nudges nor resets,
-- as long as none of them has dropped the agent's entry from the state file.
pub breaker_silent :
    (c : Settings) (e : Entry) (history : List ℕ) (scans : List Watched) (s : Scan) (obs : AgentObs)
    (f : Entry) (kept : List ℕ)
    → is_set e.repeat_alerted ≡ true
    → watch c scans e history ≡ some (f, kept)
    → trips c s obs kept ≡ true
    → (handle c s obs (some f) kept).effects ≡ []
breaker_silent c e history scans s obs f kept h w t =
    handle_silent c s obs kept f (subst Marked w (watch_keeps c scans e history h)) t
