-- ===== src/Sla.antt =====
-- scripts/priority_sla_watchdog.py: what a scan does with the violations that it has fetched (Fetch). What the
-- database, the terminals and the senders answer are inputs, and times are seconds.
pub mod Fetch
pub mod Actions
pub mod Pages
pub mod Rounds
pub mod Once
mod Samples
use wingmen_orchestrator.Prelude.{
  ℕ, suc, ◌+◌, ◌-◌, ◌*◌, Bool, true, false, not, ◌&&◌, ◌||◌, Option, none, some, List, [], ◌∷◌, any,
  length, ltb, leb, ◌==◌, nat_eq, if◌then◌else◌,
}
use wingmen_orchestrator.Prelude.Texts.{Text, codes, starts_with, text_eq}
use wingmen_orchestrator.Bus.Wake.{Priority, p0, p1, p2, p3}

pub data Kind : Type 0 where
  unread unresponded : Kind

abbrev pub is_unread : Kind → Bool
is_unread unread = true
is_unread unresponded = false

pub record Violation : Type 0 where
  pub message_id : ℕ
  pub agent : Text
  pub priority : Priority
  pub kind : Kind
  pub elapsed_minutes : ℕ

pub record Entry : Type 0 where
  pub nudge_count : ℕ
  pub last_nudge_ts : ℕ
  pub paged : Bool
  pub paged_ts : ℕ
  pub last_seen_ts : ℕ

pub record Settings : Type 0 where
  pub renudge_backoff_min : ℕ
  pub hard_escalate_p0_min : ℕ
  pub hard_escalate_p1_min : ℕ
  pub min_nudges_before_escalate : ℕ
  pub max_pages_per_run : ℕ
  pub circuit_breaker_max : ℕ

-- What is answered in one scan. `recheck` is the pair of read_at and responded_at being set, or none where
-- the query fails or finds no row; `text_of` is the decimal text of a number.
pub record Calls : Type 0 where
  pub recheck : ℕ → Option (Bool × Bool)
  pub lookup_ok : ℕ → Bool
  pub text_of : ℕ → Text
  pub nazim_alive : Bool
  pub internal_ok : ℕ → Bool
  pub send_ok : ℕ → Bool
  pub audit_ok : ℕ → Bool

-- A page with the re-nudges before it, and whether it was delivered.
pub data Event : Type 0 where
  page : Violation → ℕ → Bool → Event
  escalation : Violation → Event
  nudge : Text → Event
  summary : Event

-- The entries of the state file, what the scan counts, the ids of the PAGED rows on the bus, and what has
-- happened.
pub record Scan : Type 0 where
  pub msgs : ℕ → Kind → Option Entry
  pub pages_this_run : ℕ
  pub nudged_this_cycle : List Text
  pub audits : List ℕ
  pub trail : List Event

abbrev pub hard_escalate_min : Settings → Priority → Option ℕ
hard_escalate_min s p0 = some s.hard_escalate_p0_min
hard_escalate_min s p1 = some s.hard_escalate_p1_min
hard_escalate_min s _ = none

abbrev pub is_past : Option ℕ → ℕ → Bool
is_past none elapsed = false
is_past (some hard) elapsed = ltb hard elapsed

-- responded_at always counts, read_at for an unread row only.
abbrev pub attended_for : Kind → Option (Bool × Bool) → Bool
attended_for k none = false
attended_for k (some (is_read, is_responded)) = is_responded || is_unread k && is_read

-- subject LIKE '[sla-watchdog] PAGED operator re msg #<mid>%'
abbrev pub already_paged_on_bus : Calls → ℕ → List ℕ → Bool
already_paged_on_bus c mid audits =
    c.lookup_ok mid && any (λ k. starts_with (c.text_of k) (c.text_of mid)) audits

abbrev pub internal_path_alive : Calls → Text → Bool
internal_path_alive c recipient = not (text_eq recipient (codes "orch-console")) && c.nazim_alive

abbrev pub same_kind : Kind → Kind → Bool
same_kind unread k = is_unread k
same_kind unresponded k = not (is_unread k)

abbrev pub put_entry : Violation → Entry → Scan → Scan
put_entry v e s = record s {
  msgs = λ i k. if i == v.message_id && same_kind k v.kind then some e else s.msgs i k;
}

abbrev pub add_event : Bool → Event → Scan → Scan
add_event dry e s = if dry then s else record s { trail = e ∷ s.trail }

abbrev add_audit : Bool → ℕ → Scan → Scan
add_audit ok i s = if ok then record s { audits = i ∷ s.audits } else s

abbrev pub entry_of : ℕ → Option Entry → Entry
entry_of now none = record {
  nudge_count = 0;
  last_nudge_ts = 0;
  paged = false;
  paged_ts = 0;
  last_seen_ts = now;
}
entry_of now (some e) = record e { last_seen_ts = now }

abbrev pub escalate_eligible : Settings → Violation → Entry → Bool
escalate_eligible set v e =
    is_past (hard_escalate_min set v.priority) v.elapsed_minutes
    && leb set.min_nudges_before_escalate e.nudge_count
    && not e.paged

-- send_page, the audit row and the counts. The entry is marked whether or not the page was delivered.
unfoldable pub page_operator : Bool → Calls → ℕ → Violation → Entry → Scan → Scan
page_operator dry c now v e s =
    let paged =
      add_event dry (page v e.nudge_count (c.send_ok v.message_id))
        (put_entry v (record e { paged = true; paged_ts = now }) s) in
    add_audit (not dry && c.audit_ok v.message_id) v.message_id
      (record paged { pages_this_run = suc s.pages_this_run })

unfoldable pub escalate : Bool → Calls → Settings → ℕ → Violation → Entry → Scan → Scan
escalate dry c set now v e s =
    if not dry && already_paged_on_bus c v.message_id s.audits
    then put_entry v (record e { paged = true }) s
    else if leb set.max_pages_per_run s.pages_this_run
    then put_entry v e s
    else if internal_path_alive c v.agent && (dry || c.internal_ok v.message_id)
    then add_event dry (escalation v) (put_entry v (record e { paged = true; paged_ts = now }) s)
    else page_operator dry c now v e s

abbrev pub counted : ℕ → Entry → Entry
counted now e = record e { nudge_count = suc e.nudge_count; last_nudge_ts = now }

-- An agent is nudged once in a scan, however many violations it has.
unfoldable pub renudge_once : Bool → Settings → ℕ → Violation → Entry → Scan → Scan
renudge_once dry set now v e s =
    if ltb (now - e.last_nudge_ts) (set.renudge_backoff_min * 60) && ltb 0 e.nudge_count
    then put_entry v e s
    else if any (text_eq v.agent) s.nudged_this_cycle
    then put_entry v (counted now e) s
    else let nudged = add_event dry (nudge v.agent) (put_entry v (counted now e) s) in
      record nudged { nudged_this_cycle = v.agent ∷ s.nudged_this_cycle }

unfoldable pub handle : Bool → Calls → Settings → ℕ → Violation → Scan → Scan
handle dry c set now v s =
    let e = entry_of now (s.msgs v.message_id v.kind) in
    if escalate_eligible set v e && not (attended_for v.kind (c.recheck v.message_id))
    then escalate dry c set now v e s
    else renudge_once dry set now v e s

unfoldable pub handle_each : Bool → Calls → Settings → ℕ → List Violation → Scan → Scan
unfolding handle
handle_each dry c set now [] s = s
handle_each dry c set now (v ∷ vs) s = handle_each dry c set now vs (handle dry c set now v s)

abbrev rank : Priority → ℕ
rank p0 = 0
rank p1 = 1
rank p2 = 2
rank p3 = 3

-- (rank, -elapsed), and otherwise as they stand
abbrev pub is_before : Violation → Violation → Bool
is_before v u =
    ltb (rank v.priority) (rank u.priority)
    || rank v.priority == rank u.priority && leb u.elapsed_minutes v.elapsed_minutes

unfoldable pub insert_sorted : Violation → List Violation → List Violation
insert_sorted v [] = v ∷ []
insert_sorted v (u ∷ us) =
    let rest = u ∷ insert_sorted v us in if is_before v u then v ∷ u ∷ us else rest

unfoldable pub sorted : List Violation → List Violation
unfolding insert_sorted
sorted [] = []
sorted (v ∷ vs) = insert_sorted v (sorted vs)

abbrev state_ttl_sec : ℕ
state_ttl_sec = 604800

abbrev keep_recent : ℕ → Option Entry → Option Entry
keep_recent now none = none
keep_recent now (some e) = if ltb (now - e.last_seen_ts) state_ttl_sec then some e else none

-- What is in the file after a scan: nothing new, if the scan is not to persist or the write fails.
unfoldable pub save_state : Bool → ℕ → Scan → Scan → Scan
save_state written now before s = record s {
  msgs = λ i k. if written then keep_recent now (s.msgs i k) else before.msgs i k;
}

-- Without the pen the scan is a dry run.
unfoldable pub run : Bool → Bool → Bool → Calls → Settings → ℕ → List Violation → Scan → Scan
unfolding handle_each sorted save_state
run asked_dry has_pen write_ok c set now violations s =
    let dry = asked_dry || not has_pen in
    let started = record s { pages_this_run = 0; nudged_this_cycle = [] } in
    save_state (not dry && write_ok) now s (
      if ltb set.circuit_breaker_max (length violations)
      then add_event dry summary started
      else handle_each dry c set now (sorted violations) started)
