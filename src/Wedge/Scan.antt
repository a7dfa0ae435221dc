-- ===== src/Wedge/Scan.antt =====
-- nervous_system/lane_wedge_watchdog.py: `_recover`, `run` and `save_state`. The lease, the state of the
-- worktrees and the heartbeat file are inputs; a text is the kind of its page.
pub mod Actions
pub mod Silence
use wingmen_orchestrator.Prelude.{
  ℕ, zero, suc, ◌+◌, String, Bool, true, false, not, ◌&&◌, ◌||◌, Option, none, some, List, [], ◌∷◌,
  ◌++◌, is_empty, length, ltb, leb, ◌==◌, nat_eq, string_eq, if◌then◌else◌,
}
use wingmen_orchestrator.Wedge.{
  Settings, AgentObs, Composer, comp_menu, Kind, lane, singleton, Entry, Verdict, healthy,
  unreachable, monitoring, wedge, wedge_unsafe, evaluate, genuine_stall,
}

pub data Mode : Type 0 where
  detect_only auto_nudge auto_escalate : Mode

pub data Page : Type 0 where
  deadman repeat menu_trap wedged singleton_escalate not_clean : Page

-- What leaves the watchdog: a page, a call of the tool that nudges, which has guards of its own, a reset.
pub data Effect : Type 0 where
  paged : Page → String → Effect
  nudged : String → Effect
  reset : String → Effect

-- What a scan is given: its flags, its time, and `_worktree_clean`.
pub record Scan : Type 0 where
  pub mode : Mode
  pub alert : Bool
  pub dry : Bool
  pub now : ℕ
  pub worktree_clean : Option String → Option Bool

-- The truth of a time that may be absent: 0 is false.
abbrev pub is_set : Option ℕ → Bool
is_set none = false
is_set (some zero) = false
is_set (some (suc t)) = true

abbrev pub time_of : Option ℕ → ℕ
time_of none = 0
time_of (some t) = t

abbrev pub page_if : Bool → Page → String → List Effect
page_if alert p agent = if alert then paged p agent ∷ [] else []

-- do_nudge: the sanctioned tools of the registry, or the lane's session
abbrev pub do_nudge : AgentObs → List Effect
do_nudge obs = elim obs.kind [
  | singleton ↦
      if obs.agent == "cai" || obs.agent == "cc-orchestrator" then nudged obs.agent ∷ [] else []
  | lane ↦ elim obs.session [ none ↦ [] | some s ↦ if s == "" then [] else nudged obs.agent ∷ [] ]
]

abbrev pub reset_lane : Option String → List Effect
reset_lane none = []
reset_lane (some s) = reset s ∷ []

abbrev pub is_escalate : Mode → Bool
is_escalate auto_escalate = true
is_escalate _ = false

abbrev pub is_true : Option Bool → Bool
is_true none = false
is_true (some b) = b

abbrev pub is_singleton : Kind → Bool
is_singleton singleton = true
is_singleton lane = false

abbrev pub escalate : Scan → AgentObs → List Effect
escalate s obs =
    if is_singleton obs.kind
    then page_if s.alert singleton_escalate obs.agent
    else if is_true (s.worktree_clean obs.session)
    then reset_lane obs.session
    else page_if s.alert not_clean obs.agent

-- The reasons to hold stage 2.
abbrev pub holds_back : Settings → Scan → Entry → Bool
holds_back c s e =
    not (is_escalate s.mode)
    || ltb s.now (time_of e.nudged_at + c.stage2_delay_sec)
    || ltb e.nudge_count c.min_nudges_before_escalate
    || is_set e.escalated_at

unfoldable pub recover : Settings → Scan → AgentObs → Entry → Entry × List Effect
recover c s obs e =
    if not (is_set e.nudged_at)
    then (record e { nudged_at = some s.now; nudge_count = suc e.nudge_count }, do_nudge obs)
    else if holds_back c s e
    then (e, [])
    else (record e { escalated_at = some s.now }, escalate s obs)

-- [t for t in history if now - t < REPEAT_WINDOW_SEC]
unfoldable pub recent : Settings → ℕ → List ℕ → List ℕ
recent c now [] = []
recent c now (t ∷ ts) =
    let rest = recent c now ts in if ltb now (t + c.repeat_window_sec) then t ∷ rest else rest

-- not history or now - history[-1] > WEDGE_GRACE_SEC
unfoldable pub is_apart : Settings → ℕ → List ℕ → Bool
is_apart c now [] = true
is_apart c now (t ∷ []) = ltb (t + c.wedge_grace_sec) now
is_apart c now (t ∷ u ∷ ts) = is_apart c now (u ∷ ts)

-- What a scan leaves of one agent.
pub record Handled : Type 0 where
  pub entry : Entry
  pub history : List ℕ
  pub effects : List Effect

abbrev pub is_menu : Composer → Bool
is_menu comp_menu = true
is_menu _ = false

abbrev pub log_wedge : ℕ → Entry → Entry
log_wedge now e = if is_set e.wedge_logged then e else record e { wedge_logged = some now }

-- alert and (menu or unsafe or _genuine_stall(obs)) and not entry.get("alerted")
abbrev pub pages_wedge : Settings → Scan → AgentObs → Bool → Entry → Bool
pages_wedge c s obs unsafe e =
    s.alert
    && (is_menu obs.composer.state || unsafe || genuine_stall c obs)
    && not (is_set e.alerted)

abbrev pub wedge_page : AgentObs → Page
wedge_page obs = if is_menu obs.composer.state then menu_trap else wedged

abbrev pub grown : Settings → Scan → AgentObs → List ℕ → List ℕ
grown c s obs history =
    if genuine_stall c obs && is_apart c s.now history then history ++ (s.now ∷ []) else history

-- What follows the pages.
abbrev pub act : Settings → Scan → AgentObs → Bool → List ℕ → Entry × List Effect → Handled
act c s obs unsafe history (e, pages) =
    if is_menu obs.composer.state || unsafe || s.dry
    then record { entry = e; history = history; effects = pages }
    else let r = recover c s obs e in
      record { entry = r.0; history = grown c s obs history; effects = pages ++ r.1 }

abbrev pub declare : Settings → Scan → AgentObs → Bool → Entry → Entry × List Effect
declare c s obs unsafe e =
    if pages_wedge c s obs unsafe e
    then (record e { alerted = some s.now }, paged (wedge_page obs) obs.agent ∷ [])
    else (e, [])

-- The breaker: at REPEAT_K wedges in the window, a page, once.
abbrev pub break_repeat : Scan → AgentObs → List ℕ → Entry → Handled
break_repeat s obs history e =
    if is_set e.repeat_alerted
    then record { entry = e; history = history; effects = [] }
    else record {
      entry = record e { repeat_alerted = some s.now };
      history = history;
      effects = page_if s.alert repeat obs.agent;
    }

unfoldable pub handle_wedge : Settings → Scan → AgentObs → Bool → List ℕ → Entry → Handled
unfolding recover recent genuine_stall is_apart
handle_wedge c s obs unsafe history e =
    if leb c.repeat_k (length (recent c s.now history)) && genuine_stall c obs
    then break_repeat s obs history e
    else act c s obs unsafe history (declare c s obs unsafe (log_wedge s.now e))

abbrev pub by_verdict : Settings → Scan → AgentObs → List ℕ → Verdict × Entry → Handled
by_verdict c s obs history (wedge, e) = handle_wedge c s obs false history e
by_verdict c s obs history (wedge_unsafe, e) = handle_wedge c s obs true history e
by_verdict c s obs history (_, e) = record { entry = e; history = history; effects = [] }

-- The body of the loop over the observations.
unfoldable pub handle : Settings → Scan → AgentObs → Option Entry → List ℕ → Handled
unfolding evaluate handle_wedge
handle c s obs entry history = by_verdict c s obs history (evaluate c entry obs s.now)
