-- ===== src/CaiDaemon/Handlers.antt =====
-- cc_cai_daemon/silent_lane.py and cc_cai_daemon/escalator.py. Each writes its audit row first.
use wingmen_orchestrator.Prelude.{Bool, true, false, Option, none, some}
use wingmen_orchestrator.Prelude.Texts.{Text}
use wingmen_orchestrator.CaiDaemon.Classifier.{Message}
use wingmen_orchestrator.CaiDaemon.World.{
  silent_read, silent_ack, escalation, sent_escalation, muted_escalation, marked_read, acked,
  pushed, Act, ◌>>=◌, ◌>>◌, pure, raise, branch, call, audit, statement, ask,
}

unfoldable pub handle_mark_read_fyi : Message → Act Bool
unfolding audit statement
handle_mark_read_fyi msg = do
  ok ← audit (silent_read msg.id)
  branch ok (do statement (marked_read msg.id); pure true) (pure false)

-- The reply quotes the subject, and slicing None raises.
abbrev pub has_subject : Option Text → Bool
has_subject none = false
has_subject (some s) = true

unfoldable pub handle_ack_fyi : Message → Act Bool
unfolding audit statement
handle_ack_fyi msg = do
  ok ← audit (silent_ack msg.id)
  branch ok
      (branch (has_subject msg.subject)
        (do statement (acked msg.id); statement (marked_read msg.id); pure true) raise)
      (pure false)

-- `true` is a message id, `false` is None. A bot that is None fails in the call as a failed send
-- does; the first question is whether the mute flag exists.
unfoldable pub escalate_to_operator : Message → Act Bool
unfolding audit call ask
escalate_to_operator msg = do
  ok ← audit (escalation msg.id)
  branch ok
      (do
        muted ← ask
        branch muted (do audit (muted_escalation msg.id); pure false)
            (do
              sent ← call (pushed msg.id)
              branch sent (do audit (sent_escalation msg.id); pure true) (pure false)))
      (pure false)
