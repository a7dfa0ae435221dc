-- ===== src/Wedge/Run.antt =====
-- nervous_system/lane_wedge_watchdog.py: `run`, `_deadman_check_and_beat` and `save_state`, on the state
-- that the file holds. The observations, the lease and the heartbeat file are inputs.
pub mod Fleet
use wingmen_orchestrator.Prelude.{
  ℕ, zero, suc, ◌+◌, String, Bool, true, false, not, ◌&&◌, ◌||◌, Option, none, some, List, [], ◌∷◌,
  ◌++◌, is_empty, ltb, ◌==◌, nat_eq, string_eq, if◌then◌else◌,
}
use wingmen_orchestrator.Wedge.{Settings, AgentObs, Entry}
use wingmen_orchestrator.Wedge.Scan.{
  Mode, detect_only, Page, deadman, Effect, paged, Scan, page_if, recent, Handled, handle, time_of,
  is_set,
}

pub record State : Type 0 where
  pub agents : List (String × Entry)
  pub wedge_history : List (String × List ℕ)
  pub last_beat : ℕ

pub record Call : Type 0 where
  pub mode : Mode
  pub alert : Bool
  pub persist : Option Bool
  pub persist_dry : Bool
  pub lease_ok : Bool
  pub now : ℕ
  pub worktree_clean : Option String → Option Bool
  pub heartbeat : Option ℕ

module _ {A : Type 0} where
  -- d.get(k)
  unfoldable pub get : String → List (String × A) → Option A
  get k [] = none
  get k ((l, a) ∷ d) = let rest = get k d in if l == k then some a else rest

  -- d[k] = a
  unfoldable pub put : String → A → List (String × A) → List (String × A)
  put k a [] = (k, a) ∷ []
  put k a ((l, b) ∷ d) = let rest = put k a d in if l == k then (l, a) ∷ d else (l, b) ∷ rest

abbrev pub or_empty : Option (List ℕ) → List ℕ
or_empty none = []
or_empty (some ts) = ts

abbrev pub is_detect : Mode → Bool
is_detect detect_only = true
is_detect _ = false

abbrev pub last_known : Option ℕ → ℕ → ℕ
last_known none last_beat = last_beat
last_known (some t) last_beat = t

unfoldable pub deadman_page : Settings → Call → State → List Effect
deadman_page c k st =
    let last = last_known k.heartbeat st.last_beat in
    if ltb 0 last && ltb (last + c.deadman_gap_sec) k.now then page_if k.alert deadman "" else []

-- A body that does not hold the pen only detects.
abbrev pub is_dry : Call → Bool
is_dry k = is_detect k.mode || not k.lease_ok

abbrev pub scan_of : Call → Scan
scan_of k = record {
  mode = k.mode;
  alert = k.alert;
  dry = is_dry k;
  now = k.now;
  worktree_clean = k.worktree_clean;
}

abbrev pub persists : Call → Bool
persists k =
    (elim k.persist [ none ↦ not (is_detect k.mode) || k.persist_dry | some b ↦ b ])
    && (is_detect k.mode || k.lease_ok)

unfoldable pub handle_agent : Settings → Scan → AgentObs → State → State × List Effect
unfolding get put handle
handle_agent c s obs st =
    let h = handle c s obs (get obs.agent st.agents) (or_empty (get obs.agent st.wedge_history)) in
    (
      record st {
        agents = put obs.agent h.entry st.agents;
        wedge_history = put obs.agent h.history st.wedge_history;
      },
      h.effects,
    )

unfoldable pub handle_each : Settings → Scan → List AgentObs → State → State × List Effect
unfolding handle_agent
handle_each c s [] st = (st, [])
handle_each c s (obs ∷ more) st =
    let r = handle_agent c s obs st in let t = handle_each c s more r.0 in (t.0, r.1 ++ t.1)

unfoldable pub keep_seen : Settings → ℕ → List (String × Entry) → List (String × Entry)
keep_seen c now [] = []
keep_seen c now ((k, e) ∷ d) =
    let rest = keep_seen c now d in
    if ltb now (e.last_seen + c.state_ttl_sec) then (k, e) ∷ rest else rest

unfoldable pub keep_recent : Settings → ℕ → List (String × List ℕ) → List (String × List ℕ)
unfolding recent
keep_recent c now [] = []
keep_recent c now ((k, ts) ∷ d) =
    let kept = recent c now ts in
    let rest = keep_recent c now d in if is_empty kept then rest else (k, kept) ∷ rest

unfoldable pub save_state : Settings → ℕ → State → State
unfolding keep_seen keep_recent
save_state c now st = record st {
  agents = keep_seen c now st.agents;
  wedge_history = keep_recent c now st.wedge_history;
}

-- The state that the file holds afterwards, and what the scan did.
unfoldable pub run : Settings → Call → List AgentObs → State → State × List Effect
unfolding deadman_page handle_each save_state
run c k observations st =
    let t = handle_each c (scan_of k) observations (record st { last_beat = k.now }) in
    (if persists k then save_state c k.now t.0 else st, deadman_page c k st ++ t.1)
