-- ===== src/Outbox/Samples.antt =====
-- Sample texts, rows and passes.
use wingmen_orchestrator.Prelude.{
  ℕ, ◌≡◌, refl, String, Bool, true, false, Option, none, some, List, [], ◌∷◌, ◌++◌, All, map, arith,
  ◌==◌, string_eq, if◌then◌else◌,
}
use wingmen_orchestrator.Prelude.Texts.{Text, codes}
use wingmen_orchestrator.Outbox.Chunks.{chunk_text, chunk_loop, cut_at, last_break, lstrip_breaks}
use wingmen_orchestrator.Outbox.Chunks.Split.{Chunked, chunk_text-Chunked}
use wingmen_orchestrator.Outbox.Queue.{
  Status, queued, sending, sent, failed, pos, Row, claim, requeue_all, picked, select, sort, insert,
  update_where, is_among,
}
use wingmen_orchestrator.Outbox.Queue.Claims.{is_due, claim-Agree}
use wingmen_orchestrator.Outbox.Telegram.{
  Channel, outbound, Post, Outside, World, resolve, default_chat, int_of, send_text, send_file,
  send_parts, parts_of, resolve,
}
use wingmen_orchestrator.Outbox.Delivery.{
  attempt, send_all, is_stale_ack, deliver_one, deliver_each, drain_once, update_id, with_rows,
  left,
}
use wingmen_orchestrator.Outbox.Delivery.Outcomes.{Explained, attempt-Explained}
use wingmen_orchestrator.Outbox.Delivery.Sendable.{IsSendable, drain_once-AllSendable}
use wingmen_orchestrator.Outbox.Delivery.Passes.{Outcome, drain_once-Outcome}
use wingmen_orchestrator.Outbox.Drainers.{Reachable, start, move, enqueued, claimed, enqueue}
use wingmen_orchestrator.Outbox.Drainers.Sound.{Sound, reachable-Sound}

-- A cut at the newline, one at the limit, and the stripped blank.
chunk_text_test :
    chunk_text 10 (codes "one 345 7\nten eleven12 x")
    ≡ some (codes "one 345 7" ∷ codes "ten eleven" ∷ codes "12 x" ∷ [])
unfolding chunk_text chunk_loop cut_at last_break lstrip_breaks
chunk_text_test = refl

chunk_text-Chunked_example :
    Chunked 10 (codes "one 345 7\nten") (chunk_text 10 (codes "one 345 7\nten"))
chunk_text-Chunked_example = chunk_text-Chunked 10 (codes "one 345 7\nten") (omega arith)

abbrev row : ℕ → Status → ℕ → Text → Row
row id status created_at text = record {
  id = id;
  channel_key = "ops";
  chat_id = none;
  text = some text;
  file_path = none;
  status = status;
  attempts = 1;
  last_error = none;
  created_at = created_at;
  sent_at = none;
}

abbrev hello : Text
hello = codes "hello"

abbrev table : List Row
table =
    row 1 sent 5 hello ∷ row 2 failed 60 hello ∷ row 3 sending 90 hello ∷ row 4 queued 40 hello ∷ []

-- The row that failed a moment ago, and not the one that is being sent for 110 seconds.
claim_test : map (λ r. r.id) (claim 200 table).0 ≡ 4 ∷ 2 ∷ []
unfolding claim requeue_all picked select sort insert update_where
claim_test = refl

claim-Agree_example : All (λ r. is_among (claim 200 table).0 r ≡ is_due 200 r) table
claim-Agree_example = claim-Agree 200 table (omega arith) (omega arith)

abbrev ops : Channel
ops = record {
  channel_key = "ops";
  token_env_key = some "OPS_TOKEN";
  allowed_chat_ids = some (pos 7 ∷ pos 8 ∷ []);
  channel_tag = some "ops";
}

-- The environment has a token and the operator's chat; Telegram takes the first request only.
abbrev only_one : List Post → Post → Bool
only_one [] p = true
only_one _ p = false

abbrev env : String → Option Text
env key = if key == "MUSA_TELEGRAM_ID" then some (codes "8") else some (codes "t0k3n")

abbrev outside : Outside
outside = record {
  getenv = env;
  redact = λ t. t;
  is_readable = λ p. true;
  accepts = only_one;
  returned = λ rs. rs;
  reads_ok = λ i. true;
  writes_ok = λ i. true;
  handler_ok = λ i. true;
}

abbrev world : List Row → World
world t = record { now = 200; channels = ops ∷ []; rows = t; messages = []; posts = [] }

abbrev statuses : World → List Status
statuses w = map (λ r. r.status) w.rows

-- One is sent to the operator; at the next Telegram fails.
drain_test :
    statuses (left (drain_once outside (world table))) ≡ sent ∷ failed ∷ sending ∷ sent ∷ []
unfolding drain_once deliver_each deliver_one attempt resolve default_chat int_of is_stale_ack
    send_all send_text send_file send_parts parts_of chunk_text chunk_loop claim requeue_all picked
    select sort insert update_where update_id
drain_test = refl

sent_test :
    (left (drain_once outside (world table))).messages ≡ outbound (pos 8) (some "ops") hello ∷ []
unfolding drain_once deliver_each deliver_one attempt resolve default_chat int_of is_stale_ack
    send_all send_text send_file send_parts parts_of chunk_text chunk_loop claim requeue_all picked
    select sort insert update_where update_id
sent_test = refl

attempt-Explained_example :
    Explained outside
      (world table)
      (row 4 queued 40 hello)
      (attempt outside (world table) (row 4 queued 40 hello))
attempt-Explained_example = attempt-Explained outside (world table) (row 4 queued 40 hello)

drain_once-AllSendable_example : All IsSendable (left (drain_once outside (world table))).posts
drain_once-AllSendable_example = drain_once-AllSendable outside (world table) tt

drain_once-Outcome_example :
    Outcome outside []
      (claim 200 table).0
      (with_rows (world table) (claim 200 table).1)
      (drain_once outside (world table))
drain_once-Outcome_example = drain_once-Outcome outside (world table)

-- A row is added to the empty table, and claimed.
abbrev added : World
added = with_rows (world []) (enqueue 1 200 "ops" (some hello) none none [])

reached : Reachable (record {
  world = with_rows added (claim 200 added.rows).1;
  held = (claim 200 added.rows).0 ++ [];
})
reached =
    move
      (move (start {s = record { world = world []; held = [] }} refl refl)
        (enqueued 1 "ops" (some hello) none none tt))
      claimed

reachable-Sound_example : Sound (record {
  world = with_rows added (claim 200 added.rows).1;
  held = (claim 200 added.rows).0 ++ [];
})
reachable-Sound_example = reachable-Sound reached
