-- ===== src/Outbox/Drainers.antt =====
-- The drainers of nervous_system/tg_out.py at work on one table, the daemon and each `send`: rows are
-- added, claimed, delivered and lost in any order, and all else that is read may change in between. An id of a
-- new row is fresh.
pub mod Counts
pub mod Sound
use wingmen_orchestrator.Prelude.{ℕ, ◌≡◌, ◌≢◌, Option, none, String, List, [], ◌∷◌, ◌++◌, All}
use wingmen_orchestrator.Prelude.Texts.{Text}
use wingmen_orchestrator.Outbox.Queue.{Row, queued, ℤ, claim}
use wingmen_orchestrator.Outbox.Telegram.{Channel, Message, Outside, World}
use wingmen_orchestrator.Outbox.Delivery.{done, aborted, deliver_one, with_rows}

-- INSERT INTO tg_out, with the defaults of the other columns
unfoldable pub enqueue : ℕ → ℕ → String → Option Text → Option ℤ → Option Text → List Row → List Row
enqueue id now channel_key text chat_id file_path t =
    t
    ++ (record {
      id = id;
      channel_key = channel_key;
      chat_id = chat_id;
      text = text;
      file_path = file_path;
      status = queued;
      attempts = 0;
      last_error = none;
      created_at = now;
      sent_at = none;
    }
        ∷ [])

-- The world, and the rows that the drainers hold.
pub record Site : Type 0 where
  pub world : World
  pub held : List Row

pub data Move : Site → Site → Type 0 where
  enqueued :
      {w : World} {hs : List Row} (id : ℕ) (key : String) (text : Option Text) (chat : Option ℤ)
      (path : Option Text)
      → All (λ r. r.id ≢ id) w.rows
      → Move
          (record { world = w; held = hs })
          (record { world = with_rows w (enqueue id w.now key text chat path w.rows); held = hs })
  claimed :
      {w : World} {hs : List Row}
      → Move
          (record { world = w; held = hs })
          (record {
            world = with_rows w (claim w.now w.rows).1;
            held = (claim w.now w.rows).0 ++ hs;
          })
  delivered :
      {w v : World} (o : Outside) (before : List Row) (r : Row) (after : List Row)
      → deliver_one o r w ≡ done v
      → Move
          (record { world = w; held = before ++ (r ∷ after) })
          (record { world = v; held = before ++ after })
  refused :
      {w v : World} (o : Outside) (before : List Row) (r : Row) (after : List Row)
      → deliver_one o r w ≡ aborted v
      → Move
          (record { world = w; held = before ++ (r ∷ after) })
          (record { world = v; held = before ++ after })
  lost :
      {w : World} (before : List Row) (r : Row) (after : List Row)
      → Move
          (record { world = w; held = before ++ (r ∷ after) })
          (record { world = w; held = before ++ after })
  changed :
      {w : World} {hs : List Row} (now : ℕ) (channels : List Channel) (messages : List Message)
      → Move
          (record { world = w; held = hs })
          (record {
            world = record w { now = now; channels = channels; messages = messages };
            held = hs;
          })

pub data Reachable : Site → Type 0 where
  start : {s : Site} → s.world.rows ≡ [] → s.held ≡ [] → Reachable s
  move : {s t : Site} → Reachable s → Move s t → Reachable t
