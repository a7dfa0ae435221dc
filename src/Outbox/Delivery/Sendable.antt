-- ===== src/Outbox/Delivery/Sendable.antt =====
-- The length of the messages.
use mathlib.Core.Path.{subst}
use wingmen_orchestrator.Prelude.{
  ℕ, zero, suc, refl, sym, Bool, true, false, if_holds, Option, none, some, List, [], ◌∷◌, ◌++◌,
  All, map, take, arith, inl, inr,
}
use wingmen_orchestrator.Prelude.Texts.{Text}
use wingmen_orchestrator.Outbox.Chunks.Split.{Fits, chunk_text-Chunked}
use wingmen_orchestrator.Outbox.Queue.{ℤ, Error, db_failed, Row, claim}
use wingmen_orchestrator.Outbox.Telegram.{
  Post, send_message, send_document, Outside, World, or_no_parts, parts_of,
}
use wingmen_orchestrator.Outbox.Delivery.{
  Ending, stale, through, broken, update_id, handled, settled, attempt_if, deliver_one,
  deliver_each, Delivered, left, with_rows, drain_once,
}
use wingmen_orchestrator.Outbox.Delivery.Steps.{
  Delivered-cases, deliver_each-done, deliver_each-aborted,
}
use wingmen_orchestrator.Outbox.Delivery.Outcomes.{
  planned, planned_parts, planned_file, Explained, attempt-Explained,
}

abbrev pub IsSendable : Post → Type 0
IsSendable (send_message token chat s) = Fits 4096 s
IsSendable (send_document token chat path) = Unit

parts_of-Fits : (o : Outside) (t : Text) → All (Fits 4096) (parts_of o t)
unfolding parts_of
parts_of-Fits o t =
    let c = chunk_text-Chunked 4096 (o.redact t) (omega arith) in
    subst (λ x. All (Fits 4096) (or_no_parts x)) (sym c.found) c.fit

append-All : (s t : List Post) → All IsSendable s → All IsSendable t → All IsSendable (s ++ t)
append-All [] t a b = b
append-All (p ∷ s) t a b = (a.0, append-All s t a.1 b)

take-All : (n : ℕ) (t : List Post) → All IsSendable t → All IsSendable (take n t)
take-All zero t h = tt
take-All (suc n) [] h = tt
take-All (suc n) (p ∷ t) h = (h.0, take-All n t h.1)

message-All :
    (token : Text) (chat : ℤ) (ps : List Text)
    → All (Fits 4096) ps
    → All IsSendable (map (send_message token chat) ps)
message-All token chat [] h = tt
message-All token chat (p ∷ ps) h = (h.0, message-All token chat ps h.1)

planned_parts-Fits : (o : Outside) (t : Option Text) → All (Fits 4096) (planned_parts o t)
planned_parts-Fits o none = tt
planned_parts-Fits o (some []) = tt
planned_parts-Fits o (some (c ∷ s)) = parts_of-Fits o (c ∷ s)

planned_file-All :
    (token : Text) (chat : ℤ) (path : Option Text) → All IsSendable (planned_file token chat path)
planned_file-All token chat none = tt
planned_file-All token chat (some []) = tt
planned_file-All token chat (some (c ∷ s)) = (tt, tt)

planned-All :
    (o : Outside) (token : Text) (chat : ℤ) (r : Row) → All IsSendable (planned o token chat r)
unfolding planned
planned-All o token chat r =
    append-All (map (send_message token chat) (planned_parts o r.text))
      (planned_file token chat r.file_path)
      (message-All token chat (planned_parts o r.text) (planned_parts-Fits o r.text))
      (planned_file-All token chat r.file_path)

abbrev AllSendable : Delivered → Type 0
AllSendable d = All IsSendable (left d).posts

handled-All :
    (o : Outside) (w : World) (r : Row) (e : Error) (posts : List Post)
    → All IsSendable posts
    → AllSendable (handled o w r e posts)
unfolding update_id
handled-All o w r e posts h = if_holds AllSendable (o.handler_ok r.id) _ _ (λ y. h) (λ n. h)

settled-All :
    (o : Outside) (w : World) (r : Row) (e : Ending)
    → Explained o w r e
    → All IsSendable w.posts
    → AllSendable (settled o w r e)
unfolding update_id
settled-All o w r stale x h = h
settled-All o w r (through chat tag posts) (token, q, e) h =
    if_holds AllSendable (o.writes_ok r.id) _ _ (λ y. sent)
      (λ n. handled-All o w r db_failed posts sent)
  where
    sent : All IsSendable posts
    sent =
        subst (All IsSendable) (sym e)
          (append-All w.posts (planned o token chat r) h (planned-All o token chat r))
settled-All o w r (broken err posts) (inl e) h =
    handled-All o w r err posts (subst (All IsSendable) (sym e) h)
settled-All o w r (broken err posts) (inr (token, chat, tag, n, q, e)) h =
    handled-All o w r err posts (
      subst (All IsSendable) (sym e) (
        append-All w.posts (take n (planned o token chat r)) h
          (take-All n (planned o token chat r) (planned-All o token chat r))))

attempt_if-Explained :
    (b : Bool) (o : Outside) (w : World) (r : Row) → Explained o w r (attempt_if b o w r)
attempt_if-Explained true o w r = attempt-Explained o w r
attempt_if-Explained false o w r = inl refl

deliver_one-All :
    (o : Outside) (w : World) (r : Row) → All IsSendable w.posts → AllSendable (deliver_one o r w)
unfolding deliver_one
deliver_one-All o w r h =
    settled-All o w r (attempt_if (o.reads_ok r.id) o w r)
      (attempt_if-Explained (o.reads_ok r.id) o w r) h

deliver_each-All :
    (o : Outside) (rs : List Row) (w : World)
    → All IsSendable w.posts
    → All IsSendable (left (deliver_each o rs w)).posts
unfolding deliver_each
deliver_each-All o [] w h = h
deliver_each-All o (r ∷ rs) w h = elim (Delivered-cases (deliver_one o r w)) [
  | inl (v, e) ↦
      subst (λ d. All IsSendable (left d).posts) (sym (deliver_each-done o r rs w v e))
        (deliver_each-All o rs v
          (subst (λ d. All IsSendable (left d).posts) e (deliver_one-All o w r h)))
  | inr (v, e) ↦
      subst (λ d. All IsSendable (left d).posts) (sym (deliver_each-aborted o r rs w v e))
        (subst (λ d. All IsSendable (left d).posts) e (deliver_one-All o w r h))
]

-- A pass adds no message that is empty or longer than 4096 characters to those made before.
pub drain_once-AllSendable :
    (o : Outside) (w : World)
    → All IsSendable w.posts
    → All IsSendable (left (drain_once o w)).posts
unfolding drain_once
drain_once-AllSendable o w h =
    deliver_each-All o (o.returned (claim w.now w.rows).0) (with_rows w (claim w.now w.rows).1) h
