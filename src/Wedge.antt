-- ===== src/Wedge.antt =====
-- nervous_system/lane_wedge_watchdog.py: the signals and `evaluate`. Times are in seconds and whole. The
-- settings are parameters, since the environment overrides them.
pub mod Streaks
pub mod Scan
pub mod Run
mod Samples
use wingmen_orchestrator.Prelude.{
  ℕ, zero, suc, ◌+◌, String, Bool, true, false, not, ◌&&◌, ◌||◌, Option, none, some, ltb, leb, ◌==◌,
  nat_eq, if◌then◌else◌,
}

pub record Settings : Type 0 where
  pub unread_min_age : ℕ
  pub quiet_sec : ℕ
  pub alert_quiet_sec : ℕ
  pub wedge_min_polls : ℕ
  pub wedge_grace_sec : ℕ
  pub stage2_delay_sec : ℕ
  pub min_nudges_before_escalate : ℕ
  pub repeat_k : ℕ
  pub repeat_window_sec : ℕ
  pub deadman_gap_sec : ℕ
  pub state_ttl_sec : ℕ

-- `last_write_age` is `none` where the source has infinity.
pub record BusSignal : Type 0 where
  pub unread : ℕ
  pub oldest_unread_age : ℕ
  pub last_write_age : Option ℕ
  pub actionable : ℕ

pub data Composer : Type 0 where
  comp_empty comp_real comp_unreadable comp_delegated comp_menu : Composer

pub record ComposerSignal : Type 0 where
  pub state : Composer
  pub working : Bool

pub data Kind : Type 0 where
  lane singleton : Kind

pub record AgentObs : Type 0 where
  pub agent : String
  pub kind : Kind
  pub session : Option String
  pub bus : BusSignal
  pub composer : ComposerSignal
  pub reachable : Bool

abbrev pub is_aged : ℕ → Option ℕ → Bool
is_aged floor none = true
is_aged floor (some age) = leb floor age

abbrev pub piling : Settings → BusSignal → Bool
piling c b = ltb 0 b.unread && leb c.unread_min_age b.oldest_unread_age

abbrev pub quiet : Settings → BusSignal → Bool
quiet c b = is_aged c.quiet_sec b.last_write_age

abbrev pub safe_to_nudge : ComposerSignal → Bool
safe_to_nudge s = elim s.state [ comp_real ↦ false | comp_menu ↦ false | _ ↦ true ]

unfoldable pub candidate : Settings → AgentObs → Bool
candidate c obs = piling c obs.bus && quiet c obs.bus && not obs.composer.working

unfoldable pub genuine_stall : Settings → AgentObs → Bool
genuine_stall c obs = is_aged c.alert_quiet_sec obs.bus.last_write_age || ltb 0 obs.bus.actionable

pub data Verdict : Type 0 where
  healthy unreachable monitoring wedge wedge_unsafe : Verdict

-- The signature is the text of the two, with a bar between them.
pub record Sig : Type 0 where
  pub unread : ℕ
  pub state : Composer

abbrev pub composer_eq : Composer → Composer → Bool
composer_eq comp_empty comp_empty = true
composer_eq comp_real comp_real = true
composer_eq comp_unreadable comp_unreadable = true
composer_eq comp_delegated comp_delegated = true
composer_eq comp_menu comp_menu = true
composer_eq _ _ = false

abbrev pub sig_eq : Option Sig → Sig → Bool
sig_eq none s = false
sig_eq (some r) s = r.unread == s.unread && composer_eq r.state s.state

abbrev pub sig_of : AgentObs → Sig
sig_of obs = record { unread = obs.bus.unread; state = obs.composer.state }

-- An agent's entry: a key that is absent is `none`, or 0 for the counts.
pub record Entry : Type 0 where
  pub last_seen : ℕ
  pub sig : Option Sig
  pub first_seen : Option ℕ
  pub poll_count : ℕ
  pub nudged_at : Option ℕ
  pub nudge_count : ℕ
  pub escalated_at : Option ℕ
  pub alerted : Option ℕ
  pub wedge_logged : Option ℕ
  pub repeat_alerted : Option ℕ

abbrev pub no_entry : ℕ → Entry
no_entry now = record {
  last_seen = now;
  sig = none;
  first_seen = none;
  poll_count = 0;
  nudged_at = none;
  nudge_count = 0;
  escalated_at = none;
  alerted = none;
  wedge_logged = none;
  repeat_alerted = none;
}

-- dict(entry or {}), with the time of this scan
abbrev pub seen : Option Entry → ℕ → Entry
seen none now = no_entry now
seen (some e) now = record e { last_seen = now }

-- for k in _EPISODE_KEYS: entry.pop(k, None)
abbrev pub end_episode : Entry → Entry
end_episode e = record e {
  sig = none;
  first_seen = none;
  poll_count = 0;
  nudged_at = none;
  nudge_count = 0;
  escalated_at = none;
  alerted = none;
  wedge_logged = none;
}

abbrev pub start_episode : Sig → ℕ → Entry → Entry
start_episode s now e = record e {
  sig = some s;
  first_seen = some now;
  poll_count = 1;
  nudged_at = none;
  nudge_count = 0;
  escalated_at = none;
  alerted = none;
  wedge_logged = none;
}

abbrev pub count_poll : Sig → ℕ → Entry → Entry
count_poll s now e =
    if sig_eq e.sig s then record e { poll_count = suc e.poll_count } else start_episode s now e

abbrev pub since : ℕ → Option ℕ → ℕ
since now none = now
since now (some t) = t

abbrev pub is_stable : Settings → ℕ → Entry → Bool
is_stable c now e =
    leb c.wedge_min_polls e.poll_count && leb (since now e.first_seen + c.wedge_grace_sec) now

abbrev pub verdict_of : Settings → AgentObs → ℕ → Entry → Verdict
verdict_of c obs now e =
    if is_stable c now e
    then (if safe_to_nudge obs.composer then wedge else wedge_unsafe)
    else monitoring

unfoldable pub evaluate : Settings → Option Entry → AgentObs → ℕ → Verdict × Entry
unfolding candidate
evaluate c entry obs now =
    let e = seen entry now in
    let counted = count_poll (sig_of obs) now e in
    if not obs.reachable
    then (unreachable, end_episode e)
    else if not (candidate c obs)
    then (healthy, end_episode e)
    else (verdict_of c obs now counted, counted)
