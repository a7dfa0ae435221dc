-- ===== src/Outbox/Drainers/Sound.antt =====
-- The invariant of the table and of what the drainers hold.
use mathlib.Core.Path.{subst}
use wingmen_orchestrator.Prelude.{
  ℕ, suc, ◌<◌, ◌≡◌, ◌≢◌, refl, sym, Bool, true, List, [], ◌∷◌, ◌++◌, All, leb, ◌==◌, nat_eq, arith,
  Bool-cases, inl, inr, if_holds,
}
use wingmen_orchestrator.Outbox.Queue.{
  Status, Error, db_failed, Row, is_queued, update_where, requeue, is_retried, is_recovered,
  requeue_all, take_up, picked, is_among, claim,
}
use wingmen_orchestrator.Outbox.Queue.Claims.{UniqueIds}
use wingmen_orchestrator.Outbox.Telegram.{Post, Outside, World}
use wingmen_orchestrator.Outbox.Delivery.{
  Ending, stale, through, broken, update_id, mark_sent, mark_failed, status_after, handled, settled,
  attempt_if, deliver_one, Delivered, left,
}
use wingmen_orchestrator.Outbox.Drainers.{
  enqueue, Site, Move, enqueued, claimed, delivered, refused, lost, changed, Reachable, start, move,
}
use wingmen_orchestrator.Outbox.Drainers.Counts.{
  append-All, All-without, requeue_all-IsCounted, claim-held, update_where-UniqueIds, picked-Queued,
  update_where-All, IsCounted, IsOpen, Counted,
}

-- A row that was not sent is queued, being sent or failed, with fewer than 5 attempts, or dead, with 5;
-- one that was sent has had 1 to 5; none is skipped. Every row that a drainer holds has had fewer than 5.
pub record Sound (s : Site) : Type 0 where
  pub unique : UniqueIds s.world.rows
  pub counted : All IsCounted s.world.rows
  pub open_held : All IsOpen s.held

take_up-IsCounted :
    (p : Row → Bool) (t : List Row)
    → All (λ r. p r ≡ true → is_queued r.status ≡ true) t
    → All IsCounted t
    → All IsCounted (update_where p take_up t)
unfolding update_where
take_up-IsCounted p [] k h = tt
take_up-IsCounted p (r ∷ t) k h = elim (Bool-cases (p r)) [
  | inl e ↦ rw e (open_row r.status r.attempts h.0 (k.0 e), take_up-IsCounted p t k.1 h.1)
  | inr e ↦ rw e (h.0, take_up-IsCounted p t k.1 h.1)
]
  where
    open_row : (s : Status) (n : ℕ) → Counted s n → is_queued s ≡ true → n < 5
    open_row s n a b = ground arith

requeue_all-UniqueIds : (now : ℕ) (t : List Row) → UniqueIds t → UniqueIds (requeue_all now t)
unfolding requeue_all
requeue_all-UniqueIds now t u =
    update_where-UniqueIds (is_recovered now) requeue (update_where (is_retried now) requeue t)
      (λ r. refl) (update_where-UniqueIds (is_retried now) requeue t (λ r. refl) u)

claim-Sound :
    (now : ℕ) (t : List Row)
    → UniqueIds t
    → All IsCounted t
    → UniqueIds (claim now t).1 × All IsCounted (claim now t).1
unfolding claim
claim-Sound now t u h =
    let ready = requeue_all now t in
    let v = requeue_all-UniqueIds now t u in
    (
      update_where-UniqueIds (is_among (picked ready)) take_up ready (λ r. refl) v,
      take_up-IsCounted (is_among (picked ready)) ready (picked-Queued ready v)
          (requeue_all-IsCounted now t h),
    )

failed-Counted : (n : ℕ) → n < 5 → Counted (status_after n) (suc n)
failed-Counted n h = elim (Bool-cases (leb 5 (suc n))) [
  | inl e ↦ rw e (ground (arith, e))
  | inr e ↦ rw e (ground (arith, e))
]

-- The table is sound, whatever becomes of the delivery.
abbrev IsSoundAfter : Delivered → Type 0
IsSoundAfter d = UniqueIds (left d).rows × All IsCounted (left d).rows

-- What a delivery writes.
handled-Sound :
    (o : Outside) (w : World) (r : Row) (e : Error) (posts : List Post)
    → IsOpen r
    → UniqueIds w.rows
    → All IsCounted w.rows
    → IsSoundAfter (handled o w r e posts)
unfolding update_id
handled-Sound o w r e posts k u h =
    if_holds IsSoundAfter (o.handler_ok r.id) _ _
      (λ y. (
        update_where-UniqueIds (λ x. x.id == r.id) (mark_failed e r) w.rows (λ x. refl) u,
        update_where-All IsCounted (λ x. x.id == r.id) (mark_failed e r) w.rows
            (λ x a b. failed-Counted r.attempts k) h,
      ))
      (λ n. (u, h))

settled-Sound :
    (o : Outside) (w : World) (r : Row) (e : Ending)
    → IsOpen r
    → UniqueIds w.rows
    → All IsCounted w.rows
    → IsSoundAfter (settled o w r e)
unfolding update_id
settled-Sound o w r stale k u h = (u, h)
settled-Sound o w r (through chat tag posts) k u h =
    if_holds IsSoundAfter (o.writes_ok r.id) _ _
      (λ y. (
        update_where-UniqueIds (λ x. x.id == r.id) (mark_sent w.now r) w.rows (λ x. refl) u,
        update_where-All IsCounted (λ x. x.id == r.id) (mark_sent w.now r) w.rows
            (λ x a b. (omega arith, omega (arith, k))) h,
      ))
      (λ n. handled-Sound o w r db_failed posts k u h)
settled-Sound o w r (broken e posts) k u h = handled-Sound o w r e posts k u h

deliver_one-Sound :
    (o : Outside) (w : World) (r : Row)
    → IsOpen r
    → UniqueIds w.rows
    → All IsCounted w.rows
    → IsSoundAfter (deliver_one o r w)
unfolding deliver_one
deliver_one-Sound o w r k u h = settled-Sound o w r (attempt_if (o.reads_ok r.id) o w r) k u h

enqueue-UniqueIds :
    (x : Row) (t : List Row) → All (λ r. r.id ≢ x.id) t → UniqueIds t → UniqueIds (t ++ (x ∷ []))
enqueue-UniqueIds x [] k u = (tt, tt)
enqueue-UniqueIds x (r ∷ t) k u = (apart t u.0, enqueue-UniqueIds x t k.1 u.1)
  where
    apart : (l : List Row) → All (λ s. r.id ≢ s.id) l → All (λ s. r.id ≢ s.id) (l ++ (x ∷ []))
    apart [] a = (k.0, tt)
    apart (s ∷ l) a = (a.0, apart l a.1)

Move-Sound : {s t : Site} → Sound s → Move s t → Sound t
unfolding enqueue
Move-Sound h (enqueued {w} {hs} id key text chat path k) = record {
  unique = enqueue-UniqueIds _ w.rows k h.unique;
  counted = append-All IsCounted w.rows _ h.counted (omega arith, tt);
  open_held = h.open_held;
}
Move-Sound h (claimed {w} {hs}) =
    let c = claim-Sound w.now w.rows h.unique h.counted in
    record {
      unique = c.0;
      counted = c.1;
      open_held =
          append-All IsOpen (claim w.now w.rows).0 hs (claim-held w.now w.rows h.counted)
            h.open_held;
    }
Move-Sound h (delivered {w} {v} o before r after e) =
    let k = All-without IsOpen before r after h.open_held in
    let d =
      subst (λ x. UniqueIds (left x).rows × All IsCounted (left x).rows) e
        (deliver_one-Sound o w r k.0 h.unique h.counted) in
    record { unique = d.0; counted = d.1; open_held = k.1 }
Move-Sound h (refused {w} {v} o before r after e) =
    let k = All-without IsOpen before r after h.open_held in
    let d =
      subst (λ x. UniqueIds (left x).rows × All IsCounted (left x).rows) e
        (deliver_one-Sound o w r k.0 h.unique h.counted) in
    record { unique = d.0; counted = d.1; open_held = k.1 }
Move-Sound h (lost before r after) = record {
  unique = h.unique;
  counted = h.counted;
  open_held = (All-without IsOpen before r after h.open_held).1;
}
Move-Sound h (changed now channels messages) = record {
  unique = h.unique;
  counted = h.counted;
  open_held = h.open_held;
}

-- Whatever the drainers do, in any order: ids stay distinct; a row that is queued or being sent has had
-- fewer than 5 attempts, a failed one 1 to 4, a sent one 1 to 5, a dead one 5; none is ever skipped; and
-- a row that a drainer holds has had fewer than 5.
pub reachable-Sound : {s : Site} → Reachable s → Sound s
reachable-Sound (start {s} e f) = record {
  unique = subst (λ t. UniqueIds t) (sym e) tt;
  counted = subst (λ t. All IsCounted t) (sym e) tt;
  open_held = subst (λ t. All IsOpen t) (sym f) tt;
}
reachable-Sound (move r m) = Move-Sound (reachable-Sound r) m
