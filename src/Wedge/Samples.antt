-- ===== src/Wedge/Samples.antt =====
-- Sample polls and scans.
use wingmen_orchestrator.Prelude.{ℕ, ◌≡◌, refl, true, false, Option, none, some, List, [], ◌∷◌, All}
use wingmen_orchestrator.Wedge.{
  Settings, comp_empty, lane, AgentObs, Entry, wedge, evaluate, candidate, genuine_stall, no_entry,
}
use wingmen_orchestrator.Wedge.Streaks.{Poll, follow, Declared, wedge-Declared}
use wingmen_orchestrator.Wedge.Scan.{
  auto_escalate, paged, nudged, reset, wedged, Scan, handle, handle_wedge, recover, recent,
  is_apart,
}
use wingmen_orchestrator.Wedge.Scan.Silence.{Watched, file_after, watch, breaker_silent}
use wingmen_orchestrator.Wedge.Run.{
  State, Call, run, get, put, handle_agent, handle_each, deadman_page, save_state, keep_seen,
  keep_recent,
}
use wingmen_orchestrator.Wedge.Run.Fleet.{Justified, run-Justified}

abbrev settings : Settings
settings = record {
  unread_min_age = 1200;
  quiet_sec = 1200;
  alert_quiet_sec = 5400;
  wedge_min_polls = 2;
  wedge_grace_sec = 60;
  stage2_delay_sec = 100;
  min_nudges_before_escalate = 1;
  repeat_k = 2;
  repeat_window_sec = 1000;
  deadman_gap_sec = 240;
  state_ttl_sec = 86400;
}

abbrev irsyad : ℕ → AgentObs
irsyad unread = record {
  agent = "cc-irsyad";
  kind = lane;
  session = some "irsyad";
  bus = record { unread = unread; oldest_unread_age = 1800; last_write_age = none; actionable = 1 };
  composer = record { state = comp_empty; working = false };
  reachable = true;
}

abbrev poll : ℕ → ℕ → Poll
poll at unread = record { at = at; obs = irsyad unread }

wedge_test : (evaluate settings (follow settings (poll 1000 3 ∷ [])) (irsyad 3) 1060).0 ≡ wedge
unfolding evaluate candidate follow
wedge_test = refl

wedge-Declared_example : Declared settings (poll 1060 3) (poll 1000 3 ∷ [])
unfolding evaluate candidate follow
wedge-Declared_example = wedge-Declared settings (poll 1060 3) (poll 1000 3 ∷ []) refl

-- Clean worktrees, armed, with the pen.
abbrev call : ℕ → Call
call now = record {
  mode = auto_escalate;
  alert = true;
  persist = none;
  persist_dry = false;
  lease_ok = true;
  now = now;
  worktree_clean = λ s. some true;
  heartbeat = none;
}

abbrev blank : State
blank = record { agents = []; wedge_history = []; last_beat = 0 }

abbrev third : State
third =
    (run settings (call 1060) (irsyad 3 ∷ []) (run settings (call 1000) (irsyad 3 ∷ []) blank).0).0

-- A page and a nudge at the second scan, a reset once the delay is over.
run_test :
    (run settings (call 1060) (irsyad 3 ∷ []) (run settings (call 1000) (irsyad 3 ∷ []) blank).0).1
    ≡ paged wedged "cc-irsyad" ∷ nudged "cc-irsyad" ∷ []
unfolding run get put handle_agent handle_each deadman_page save_state keep_seen keep_recent handle
    handle_wedge recover recent is_apart evaluate candidate genuine_stall
run_test = refl

escalate_test : (run settings (call 1160) (irsyad 3 ∷ []) third).1 ≡ reset "irsyad" ∷ []
unfolding run get put handle_agent handle_each deadman_page save_state keep_seen keep_recent handle
    handle_wedge recover recent is_apart evaluate candidate genuine_stall
escalate_test = refl

run-Justified_example :
    All (Justified (call 1160) (irsyad 3 ∷ [])) (run settings (call 1160) (irsyad 3 ∷ []) third).1
run-Justified_example = run-Justified settings (call 1160) (irsyad 3 ∷ []) third

abbrev scan : ℕ → Scan
scan now = record {
  mode = auto_escalate;
  alert = true;
  dry = false;
  now = now;
  worktree_clean = λ s. some true;
}

-- Paged at 500; a day on it has drained, and is wedged again.
abbrev paged_entry : Entry
paged_entry = record (no_entry 500) { repeat_alerted = some 500 }

abbrev watched : ℕ → Option AgentObs → Watched
watched now observed = record { scan = scan now; observed = observed; persists = true }

abbrev later : List Watched
later = watched 80000 none ∷ watched 85000 (some (irsyad 0)) ∷ watched 85500 (some (irsyad 3)) ∷ []

abbrev watched_entry : Entry
watched_entry = record paged_entry {
  last_seen = 85500;
  sig = some (record { unread = 3; state = comp_empty });
  first_seen = some 85500;
  poll_count = 1;
}

breaker_silent_example :
    (handle settings (scan 85600) (irsyad 3) (some watched_entry) (84900 ∷ 85000 ∷ [])).effects ≡ []
unfolding watch file_after handle handle_wedge recover recent is_apart evaluate candidate
    genuine_stall
breaker_silent_example =
    breaker_silent settings paged_entry (84900 ∷ 85000 ∷ []) later (scan 85600) (irsyad 3)
      watched_entry (84900 ∷ 85000 ∷ []) refl refl refl
