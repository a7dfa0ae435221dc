-- ===== src/Bus/Wake.antt =====
-- nervous_system/agent_wake.py: who is woken, and how often. What the look-up of the session and the
-- terminal say are inputs. Times are numbers in one unit, 300 of them a window and 45 a debounce.
pub mod Recent
pub mod Limits
use wingmen_orchestrator.Prelude.{
  ℕ, suc, ◌-◌, Bool, true, false, not, ◌&&◌, ◌||◌, Option, none, some, List, [], ◌∷◌, ◌++◌, any,
  length, is_empty, ltb, leb, ◌==◌, nat_eq, if◌then◌else◌,
}
use wingmen_orchestrator.Prelude.Texts.{Text, codes, starts_with, text_eq}

pub data Priority : Type 0 where
  p0 p1 p2 p3 : Priority

abbrev pub is_p3 : Priority → Bool
is_p3 p3 = true
is_p3 _ = false

abbrev pub is_urgent : Priority → Bool
is_urgent p0 = true
is_urgent p1 = true
is_urgent _ = false

abbrev wake_types : List Text
wake_types =
    codes "blocker"
    ∷ codes "question"
    ∷ codes "review_request"
    ∷ codes "decision"
    ∷ codes "challenge"
    ∷ []

abbrev pub is_worker : Option Text → Bool
is_worker none = false
is_worker (some a) =
    not (is_empty a) && starts_with a (codes "cc-") && not (text_eq a (codes "cc-orchestrator"))

abbrev pub is_cai : Option Text → Bool
is_cai none = false
is_cai (some a) = text_eq a (codes "cai")

unfoldable pub should_auto_wake : Option Text → Text → Bool → Priority → Bool → Bool
should_auto_wake to_agent message_type requires_response priority is_test =
    if is_test || is_p3 priority
    then false
    else if not (is_worker to_agent || is_cai to_agent)
    then false
    else requires_response || any (text_eq message_type) wake_types || is_urgent priority

-- The file of one agent: the times of its wakes, and of its last alert.
pub record WakeFile : Type 0 where
  pub wakes : List ℕ
  pub cap_alerted : ℕ

-- [t for t in ts if now - t < k]
unfoldable pub within : ℕ → ℕ → List ℕ → List ℕ
within k now [] = []
within k now (t ∷ ts) = let rest = within k now ts in if ltb (now - t) k then t ∷ rest else rest

-- max(ts), 0 where there is none
unfoldable pub latest : List ℕ → ℕ
latest [] = 0
latest (t ∷ ts) = let m = latest ts in if ltb m t then t else m

pub data Gate : Type 0 where
  allow debounced : Gate
  wake_cap : ℕ → Gate

unfoldable pub cap_state : ℕ → WakeFile → Gate
cap_state now f =
    let recent = within 300 now f.wakes in
    if not (is_empty recent) && ltb (now - latest recent) 45
    then debounced
    else if leb 5 (length recent)
    then wake_cap (length recent)
    else allow

abbrev pub record_wake : ℕ → WakeFile → WakeFile
record_wake now f = record f { wakes = within 300 now f.wakes ++ now ∷ [] }

abbrev pub cap_alert_due : ℕ → WakeFile → Bool
cap_alert_due now f = leb 300 (now - f.cap_alerted)

abbrev pub record_cap_alert : ℕ → WakeFile → WakeFile
record_cap_alert now f = record f { cap_alerted = now }

pub data WakeResult : Type 0 where
  no_session is_debounced busy dry woke : WakeResult
  capped : ℕ → Bool → WakeResult

pub record Request : Type 0 where
  pub now : ℕ
  pub session : Option Text
  pub pane_busy : Bool
  pub dry_run : Bool

abbrev pub send_signal : Request → WakeFile → WakeResult × WakeFile
send_signal r f =
    if r.pane_busy then (busy, f) else if r.dry_run then (dry, f) else (woke, record_wake r.now f)

abbrev pub pass_gate : Request → WakeFile → Gate → WakeResult × WakeFile
pass_gate r f allow = send_signal r f
pass_gate r f debounced = (is_debounced, f)
pass_gate r f (wake_cap n) =
    if cap_alert_due r.now f then (capped n true, record_cap_alert r.now f) else (capped n false, f)

-- An empty session name is as none.
unfoldable pub wake_agent : Request → WakeFile → WakeResult × WakeFile
wake_agent r f = elim r.session [
  | none ↦ (no_session, f)
  | some s ↦ if is_empty s then (no_session, f) else pass_gate r f (cap_state r.now f)
]
