-- ===== src/CaiDaemon/Cycle.antt =====
-- `_run_one_cycle` of cc_cai_daemon/main.py: poll, classify, and dispatch under the kill switch.
pub mod AuditFirst
pub mod Authority
pub mod SilentLane
use wingmen_orchestrator.Prelude.{
  ℕ, Bool, true, false, not, ◌&&◌, Option, none, some, List, [], ◌∷◌, length, if◌then◌else◌,
}
use wingmen_orchestrator.CaiDaemon.Classifier.{
  Message, Classification, Label, escalate, mark_read_fyi, ack_fyi, Category, novel_low_confidence,
  classify,
}
use wingmen_orchestrator.CaiDaemon.World.{
  State, live, pure_escalation, panic_disabled, classification, escalation, KillSwitch, Act, ◌>>=◌,
  ◌>>◌, pure, branch, audit, get_switch,
}
use wingmen_orchestrator.CaiDaemon.KillSwitch.{
  should_act_silently, should_escalate, observe, is_panic,
}
use wingmen_orchestrator.CaiDaemon.Handlers.{
  handle_mark_read_fyi, handle_ack_fyi, escalate_to_operator,
}

abbrev pub is_pure_escalation : State → Bool
is_pure_escalation pure_escalation = true
is_pure_escalation _ = false

abbrev pub is_mark_read : Label → Bool
is_mark_read mark_read_fyi = true
is_mark_read _ = false

abbrev pub is_ack : Label → Bool
is_ack ack_fyi = true
is_ack _ = false

abbrev pub is_novel : Option Category → Bool
is_novel (some novel_low_confidence) = true
is_novel _ = false

abbrev pub effective_label : KillSwitch → Label → Label
effective_label k l = if is_pure_escalation k.state then escalate else l

-- The branches of the dispatch, on the switch that the observation has left.
unfoldable pub dispatch : Message → Classification → KillSwitch → Act (Unit {0})
dispatch msg c k =
    let l = effective_label k c.label in
    branch (is_mark_read l && should_act_silently k) (do handle_mark_read_fyi msg; pure tt)
      (branch (is_ack l && should_act_silently k) (do handle_ack_fyi msg; pure tt)
        (branch (should_escalate k)
          (branch (is_novel c.escalation_category) (do audit (escalation msg.id); pure tt)
            (do escalate_to_operator msg; pure tt))
          (pure tt)))

-- The loop's body for one message. The result of the classification's audit is not read.
unfoldable pub process : Bool → Message → Act (Unit {0})
process dry_run msg = do
  let c = classify msg
  audit (classification msg.id c.label c.confidence)
  observe c.confidence
  k ← get_switch
  branch dry_run (pure tt) (dispatch msg c k)

unfoldable pub process_all : Bool → List Message → Act (Unit {0})
process_all dry_run [] = pure tt
process_all dry_run (msg ∷ rows) = do process dry_run msg; process_all dry_run rows

unfoldable pub run_one_cycle : Bool → List Message → Act ℕ
run_one_cycle dry_run rows = do
  k ← get_switch
  branch (is_panic k.state) (pure 0) (do process_all dry_run rows; pure (length rows))
