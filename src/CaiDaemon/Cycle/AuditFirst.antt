-- ===== src/CaiDaemon/Cycle/AuditFirst.antt =====
-- INV-5: no side effect without its audit row before it.
use wingmen_orchestrator.Prelude.{ℕ, ◌≡◌, ◌⊎◌, Bool, List, [], ◌∷◌, arith, length}
use wingmen_orchestrator.CaiDaemon.Classifier.{Message, Classification}
use wingmen_orchestrator.CaiDaemon.World.{
  Audit, silent_read, silent_ack, escalation, Event, audited, marked_read, acked, pushed,
  KillSwitch, World, audit, get_switch,
}
use wingmen_orchestrator.CaiDaemon.World.Keeps.{
  Keeps, Keeps-pure, Keeps-branch, Keeps-get_switch, Keeps-bind,
}
use wingmen_orchestrator.CaiDaemon.KillSwitch.{observe, is_panic}
use wingmen_orchestrator.CaiDaemon.Handlers.{
  handle_mark_read_fyi, handle_ack_fyi, escalate_to_operator,
}
use wingmen_orchestrator.CaiDaemon.Cycle.{dispatch, process, process_all, run_one_cycle}

-- The row is in the log.
abbrev pub Has : Audit → List Event → Type 0
Has a [] = ⊥
Has a (e ∷ log) = (e ≡ audited a) ⊎ Has a log

-- What must stand in the log before the event.
abbrev pub Warranted : Event → List Event → Type 0
Warranted (audited a) log = Unit
Warranted (marked_read i) log = Has (silent_read i) log ⊎ Has (silent_ack i) log
Warranted (acked i) log = Has (silent_ack i) log
Warranted (pushed i) log = Has (escalation i) log

-- Every event of the log, which has the last first, was warranted by those before it.
abbrev pub AuditedFirst : List Event → Type 0
AuditedFirst [] = Unit
AuditedFirst (e ∷ log) = Warranted e log × AuditedFirst log

abbrev IsAudited : World → Type 0
IsAudited w = AuditedFirst w.log

audit-IsAudited : (a : Audit) → Keeps IsAudited (audit a)
unfolding audit
audit-IsAudited a = record { at = λ w h. ground arith }

observe-IsAudited : (c : ℕ) → Keeps IsAudited (observe c)
unfolding observe
observe-IsAudited c = record { at = λ w h. ground arith }

read-IsAudited : (m : Message) → Keeps IsAudited (handle_mark_read_fyi m)
unfolding handle_mark_read_fyi
read-IsAudited m = record { at = λ w h. ground arith }

ack-IsAudited : (m : Message) → Keeps IsAudited (handle_ack_fyi m)
unfolding handle_ack_fyi
ack-IsAudited m = record { at = λ w h. ground arith }

escalate-IsAudited : (m : Message) → Keeps IsAudited (escalate_to_operator m)
unfolding escalate_to_operator
escalate-IsAudited m = record { at = λ w h. ground arith }

ruleset audited_rules = (
  Keeps-pure, Keeps-branch, Keeps-bind, Keeps-get_switch, audit-IsAudited, observe-IsAudited,
  read-IsAudited, ack-IsAudited, escalate-IsAudited,
)

dispatch-IsAudited :
    (m : Message) (c : Classification) (k : KillSwitch) → Keeps IsAudited (dispatch m c k)
unfolding dispatch
dispatch-IsAudited m c k = search audited_rules depth 9

process-IsAudited : (dry_run : Bool) (m : Message) → Keeps IsAudited (process dry_run m)
unfolding process
process-IsAudited dry_run m = search (audited_rules, dispatch-IsAudited) depth 9

process_all-IsAudited :
    (dry_run : Bool) (rows : List Message) → Keeps IsAudited (process_all dry_run rows)
unfolding process_all
process_all-IsAudited dry_run [] = Keeps-pure tt
process_all-IsAudited dry_run (m ∷ rows) =
    Keeps-bind (process dry_run m) _ (process-IsAudited dry_run m)
      (λ _. process_all-IsAudited dry_run rows)

cycle-IsAudited :
    (dry_run : Bool) (rows : List Message) → Keeps IsAudited (run_one_cycle dry_run rows)
unfolding run_one_cycle
cycle-IsAudited dry_run rows = Keeps-bind get_switch _ Keeps-get_switch (λ k.
    Keeps-branch (is_panic k.state) _ _ (λ _. Keeps-pure 0)
      (λ _.
        Keeps-bind (process_all dry_run rows) _ (process_all-IsAudited dry_run rows)
          (λ _. Keeps-pure (length rows))))

-- In a log where it holds so far, after a cycle over any messages, whatever calls of the database and
-- of Telegram fail and also if the cycle raises, every message marked read has a silent-action row
-- before it, every acknowledgement the row of its acknowledgement, and every Telegram push the row
-- of its escalation, each for the same message.
pub run_one_cycle-AuditedFirst :
    (dry_run : Bool) (rows : List Message) (w : World)
    → AuditedFirst w.log
    → AuditedFirst (run_one_cycle dry_run rows w).1.log
run_one_cycle-AuditedFirst dry_run rows w h = (cycle-IsAudited dry_run rows).at w h
