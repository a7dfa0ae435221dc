-- ===== src/CaiDaemon/World.antt =====
-- What the daemon touches, and the actions on it: the audit log (cc_cai_daemon/audit.py), the table
-- agent_messages through the shim of main.py, Telegram, and the kill switch in memory. Whether the
-- n-th call to the outside succeeds is the parameter `outside n` of the world, so every theorem
-- about actions is one about all failures of the database and of Telegram, at any moment.
pub mod Keeps
use wingmen_orchestrator.Prelude.{
  ℕ, suc, Bool, true, false, Option, none, some, List, ◌∷◌, if◌then◌else◌,
}
use wingmen_orchestrator.CaiDaemon.Classifier.{Label}

-- STATE_LIVE, STATE_PURE_ESCALATION, STATE_PANIC_DISABLED
pub data State : Type 0 where
  live pure_escalation panic_disabled : State

-- The rows of cc_cai_audit_log, with the columns that tell them apart.
pub data Audit : Type 0 where
  classification : ℕ → Label → ℕ → Audit
  silent_read silent_ack : ℕ → Audit
  escalation : ℕ → Audit
  sent_escalation muted_escalation : ℕ → Audit
  kill_switch_trip : State → Audit

-- What has happened to the outside: an audit row, an UPDATE of read_at and responded_at, an
-- acknowledgement inserted, a Telegram message sent.
pub data Event : Type 0 where
  audited : Audit → Event
  marked_read acked pushed : ℕ → Event

pub record KillSwitch : Type 0 where
  pub state : State
  pub low_conf_streak : ℕ

-- `log` has the last event first.
pub record World : Type 0 where
  pub outside : ℕ → Bool
  pub calls : ℕ
  pub log : List Event
  pub switch : KillSwitch

-- An action may raise: then it has no result, and what it did stays done.
abbrev pub Act : Type 0 → Type 0
Act A = World → Option A × World

infixl 5 ◌>>=◌ ◌>>◌
abbrev pub ◌>>=◌ : {A B : Type 0} → Act A → (A → Act B) → Act B
◌>>=◌ m f w = let (r, w') = m w in elim r [ none ↦ (none, w') | some a ↦ f a w' ]

abbrev pub ◌>>◌ : {A B : Type 0} → Act A → Act B → Act B
m >> n = m >>= λ _. n

abbrev pub pure : {A : Type 0} → A → Act A
pure a w = (some a, w)

-- An exception that nothing in the cycle catches.
abbrev pub raise : {A : Type 0} → Act A
raise w = (none, w)

-- A conditional action.
abbrev pub branch : {A : Type 0} → Bool → Act A → Act A → Act A
branch true m n w = m w
branch false m n w = n w

abbrev answered : Bool → Event → Act Bool
answered true e w = (some true, record w { calls = suc w.calls; log = e ∷ w.log })
answered false e w = (some false, record w { calls = suc w.calls })

-- One call to the outside, which leaves the event if it succeeds.
unfoldable pub call : Event → Act Bool
call e w = answered (w.outside w.calls) e w

-- AuditLogger._insert: it catches every exception, and its result says whether the row is there.
unfoldable pub audit : Audit → Act Bool
unfolding call
audit a = call (audited a)

abbrev or_raise : Bool → Act (Unit {0})
or_raise true w = (some tt, w)
or_raise false w = (none, w)

-- A statement through the shim: its exception is not caught there.
unfoldable pub statement : Event → Act (Unit {0})
unfolding call
statement e = do done ← call e; or_raise done

-- A question to the outside, such as whether a file exists.
unfoldable pub ask : Act Bool
ask w = (some (w.outside w.calls), record w { calls = suc w.calls })

unfoldable pub set_switch : KillSwitch → Act (Unit {0})
set_switch k w = (some tt, record w { switch = k })

abbrev pub get_switch : Act KillSwitch
get_switch w = (some w.switch, w)
