-- ===== src/Outbox/Queue.antt =====
-- The table `tg_out` of migrations 014 and 015, and the claim at the head of `drain_once` in
-- nervous_system/tg_out.py. Times are in seconds. The rows stand in the order of the sub-select; that in
-- which the database returns them is an input of the pass (Delivery).
pub mod Claims
pub mod Oldest
use wingmen_orchestrator.Prelude.{
  ℕ, zero, suc, ◌+◌, ◌≢◌, String, Bool, true, false, ◌&&◌, ◌||◌, Option, List, [], ◌∷◌, All, any,
  map, take, ltb, leb, ◌==◌, nat_eq, if◌then◌else◌,
}
use wingmen_orchestrator.Prelude.Texts.{Text}

pub data Status : Type 0 where
  queued sending sent failed dead skipped : Status

-- A BIGINT, for the chats.
pub data ℤ : Type 0 where
  pos negsuc : ℕ → ℤ

-- What `last_error` says.
pub data Error : Type 0 where
  unknown_channel empty_token bad_operator_id no_chat_target unreadable_file send_failed stale_ack
        db_failed :
      Error

pub record Row : Type 0 where
  pub id : ℕ
  pub channel_key : String
  pub chat_id : Option ℤ
  pub text : Option Text
  pub file_path : Option Text
  pub status : Status
  pub attempts : ℕ
  pub last_error : Option Error
  pub created_at : ℕ
  pub sent_at : Option ℕ

abbrev pub is_queued : Status → Bool
is_queued queued = true
is_queued _ = false

abbrev pub is_sending : Status → Bool
is_sending sending = true
is_sending _ = false

abbrev pub is_failed : Status → Bool
is_failed failed = true
is_failed _ = false

-- The CHECK that migration 015 puts on the column.
abbrev pub status_check : Status → Bool
status_check skipped = false
status_check _ = true

-- UPDATE SET f WHERE p
unfoldable pub update_where : (Row → Bool) → (Row → Row) → List Row → List Row
update_where p f [] = []
update_where p f (r ∷ t) = (if p r then f r else r) ∷ update_where p f t

unfoldable pub select : (Row → Bool) → List Row → List Row
select p [] = []
select p (r ∷ t) = let rest = select p t in if p r then r ∷ rest else rest

abbrev pub max_attempts : ℕ
max_attempts = 5

abbrev pub retry_backoff : ℕ
retry_backoff = 30

abbrev pub requeue : Row → Row
requeue r = record r { status = queued }

abbrev pub is_retried : ℕ → Row → Bool
is_retried now r = is_failed r.status && ltb (r.created_at + retry_backoff) now

abbrev pub is_recovered : ℕ → Row → Bool
is_recovered now r = is_sending r.status && ltb (r.created_at + 120) now

-- The first two statements of the pass.
unfoldable pub requeue_all : ℕ → List Row → List Row
unfolding update_where
requeue_all now t =
    update_where (is_recovered now) requeue (update_where (is_retried now) requeue t)

-- ORDER BY created_at
unfoldable pub insert : Row → List Row → List Row
insert r [] = r ∷ []
insert r (s ∷ t) =
    let rest = insert r t in if leb r.created_at s.created_at then r ∷ s ∷ t else s ∷ rest

unfoldable pub sort : List Row → List Row
sort [] = []
sort (r ∷ t) = insert r (sort t)

abbrev pub take_up : Row → Row
take_up r = record r { status = sending }

-- The sub-select: the rows that are locked.
unfoldable pub picked : List Row → List Row
unfolding select sort
picked t = take 20 (sort (select (λ r. is_queued r.status) t))

abbrev pub is_among : List Row → Row → Bool
is_among rs r = any (λ s. s.id == r.id) rs

-- The three statements in their transaction: the rows returned, and the table.
unfoldable pub claim : ℕ → List Row → List Row × List Row
unfolding requeue_all picked update_where
claim now t =
    let ready = requeue_all now t in
    let rows = picked ready in (map take_up rows, update_where (is_among rows) take_up ready)
