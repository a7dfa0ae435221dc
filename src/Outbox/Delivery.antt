-- ===== src/Outbox/Delivery.antt =====
-- `deliver_one` and `drain_once` of nervous_system/tg_out.py. A statement that the CHECK on
-- `status` refuses fails, and any other may. The statements of the claim succeed.
pub mod Steps
pub mod Outcomes
pub mod Sendable
pub mod Passes
use wingmen_orchestrator.Prelude.{
  ℕ, zero, suc, ◌+◌, ◌-◌, ◌*◌, String, Bool, true, false, not, ◌&&◌, ◌||◌, Option, none, some, List,
  [], ◌∷◌, ◌++◌, any, all, is_empty, leb, ◌==◌, nat_eq, string_eq, if◌then◌else◌,
}
use wingmen_orchestrator.Prelude.Sql.{sql_eq, holds}
use wingmen_orchestrator.Prelude.Texts.{Text, codes, strip, starts_with, is_digit}
use wingmen_orchestrator.Outbox.Queue.{
  Status, sent, dead, failed, skipped, ℤ, pos, negsuc, Error, unknown_channel, empty_token,
  bad_operator_id, no_chat_target, unreadable_file, send_failed, stale_ack, db_failed, Row,
  status_check, update_where, max_attempts, claim,
}
use wingmen_orchestrator.Outbox.Telegram.{
  Channel, Message, inbound, outbound, Post, Outside, World, Result, ok, raised, Resolved, resolve,
  Calls, send_text, send_file,
}

-- "📨 Got your message"
abbrev pub ack_start : Text
ack_start = 128232 ∷ codes " Got your message"

abbrev pub is_ack : Option Text → Bool
is_ack none = false
is_ack (some t) = starts_with t ack_start

-- direction='inbound' AND tag=%s AND handled_at IS NULL
abbrev pub is_waiting : Option String → Message → Bool
is_waiting tag (inbound t is_handled) = holds (sql_eq t tag) && not is_handled
is_waiting tag (outbound c t s) = false

unfoldable pub is_stale_ack : List Message → Option String → Option Text → Bool
is_stale_ack messages tag text = is_ack text && not (any (is_waiting tag) messages)

abbrev pub is_zero : ℤ → Bool
is_zero (pos zero) = true
is_zero _ = false

-- chat_id or default_chat
abbrev pub target : Option ℤ → Option ℤ → Option ℤ
target none default = default
target (some c) default = if is_zero c then default else some c

-- How the try block ends: at its return, at its commit, or at an exception.
pub data Ending : Type 0 where
  stale : Ending
  through : ℤ → Option String → List Post → Ending
  broken : Error → List Post → Ending

abbrev pub ended : ℤ → Option String → Calls → Ending
ended chat tag k = elim k.failure [ none ↦ through chat tag k.posts | some e ↦ broken e k.posts ]

abbrev pub then_file : Outside → Text → ℤ → Option Text → Calls → Calls
then_file o token chat path k = elim k.failure [
  | none ↦ send_file o token chat path k.posts
  | some e ↦ k
]

unfoldable pub send_all : Outside → Text → ℤ → Row → List Post → Calls
unfolding send_text send_file
send_all o token chat r posts =
    then_file o token chat r.file_path (send_text o token chat r.text posts)

abbrev pub to_target : Outside → Resolved → Row → List Post → Option ℤ → Ending
to_target o v r posts none = broken no_chat_target posts
to_target o v r posts (some chat) = ended chat v.tag (send_all o v.token chat r posts)

abbrev pub with_channel : Outside → World → Row → Result Resolved → Ending
with_channel o w r (raised e) = broken e w.posts
with_channel o w r (ok v) =
    if is_stale_ack w.messages v.tag r.text
    then stale
    else to_target o v r w.posts (target r.chat_id v.chat)

unfoldable pub attempt : Outside → World → Row → Ending
unfolding resolve is_stale_ack send_all
attempt o w r = with_channel o w r (resolve o w.channels r.channel_key)

-- text or f"[file] {file_path}"
abbrev pub file_text : Option Text → Text
file_text none = codes "[file] None"
file_text (some path) = codes "[file] " ++ path

abbrev pub logged_text : Row → Text
logged_text r = elim r.text [
  | none ↦ file_text r.file_path
  | some t ↦ if is_empty t then file_text r.file_path else t
]

abbrev pub mark_sent : ℕ → Row → Row → Row
mark_sent now r x = record x { status = sent; sent_at = some now; attempts = suc r.attempts }

abbrev pub mark_skipped : ℕ → Row → Row → Row
mark_skipped now r x = record x {
  status = skipped;
  sent_at = some now;
  last_error = some stale_ack;
}

abbrev pub status_after : ℕ → Status
status_after attempts = if leb max_attempts (suc attempts) then dead else failed

abbrev pub mark_failed : Error → Row → Row → Row
mark_failed e r x = record x {
  status = status_after r.attempts;
  attempts = suc r.attempts;
  last_error = some e;
}

-- UPDATE ... WHERE id=%s, the row's as it was returned by the claim
unfoldable pub update_id : (Row → Row → Row) → Row → List Row → List Row
unfolding update_where
update_id set r t = update_where (λ x. x.id == r.id) (set r) t

-- An exception of the handler's own UPDATE or commit leaves `deliver_one`, and it writes nothing. That is so
-- where the CHECK has refused the row before it, in the same transaction.
pub data Delivered : Type 0 where
  done aborted : World → Delivered

abbrev pub handled : Outside → World → Row → Error → List Post → Delivered
handled o w r e posts =
    if o.handler_ok r.id
    then done (record w { rows = update_id (mark_failed e) r w.rows; posts = posts })
    else aborted (record w { posts = posts })

abbrev pub settled : Outside → World → Row → Ending → Delivered
settled o w r stale =
    if status_check skipped
    then done (record w { rows = update_id (mark_skipped w.now) r w.rows })
    else aborted w
settled o w r (through chat tag posts) =
    if o.writes_ok r.id
    then done (record w {
      rows = update_id (mark_sent w.now) r w.rows;
      messages = w.messages ++ (outbound chat tag (logged_text r) ∷ []);
      posts = posts;
    })
    else handled o w r db_failed posts
settled o w r (broken e posts) = handled o w r e posts

abbrev pub attempt_if : Bool → Outside → World → Row → Ending
attempt_if reads_ok o w r = if reads_ok then attempt o w r else broken db_failed w.posts

unfoldable pub deliver_one : Outside → Row → World → Delivered
unfolding attempt update_id
deliver_one o r w = settled o w r (attempt_if (o.reads_ok r.id) o w r)

abbrev pub left : Delivered → World
left (done w) = w
left (aborted w) = w

-- for row in rows: an exception ends the pass
unfoldable pub deliver_each : Outside → List Row → World → Delivered
deliver_each o [] w = done w
deliver_each o (r ∷ rs) w = elim (deliver_one o r w) [
  | done v ↦ deliver_each o rs v
  | aborted v ↦ aborted v
]

abbrev pub with_rows : World → List Row → World
with_rows w t = record w { rows = t }

unfoldable pub drain_once : Outside → World → Delivered
unfolding claim deliver_each
drain_once o w = let c = claim w.now w.rows in deliver_each o (o.returned c.0) (with_rows w c.1)
