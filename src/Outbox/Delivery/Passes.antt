-- ===== src/Outbox/Delivery/Passes.antt =====
-- How a pass ends.
use mathlib.Core.Path.{subst}
use wingmen_orchestrator.Prelude.{
  ℕ, ◌≡◌, ◌∙◌, refl, sym, ap, Bool, true, false, if_holds, ◌⊎◌, ◌||◌, List, [], ◌∷◌, ◌++◌, All,
  ◌==◌, nat_eq, if◌then◌else◌, arith, inl, inr,
}
use wingmen_orchestrator.Outbox.Queue.{
  Status, sent, failed, dead, Error, db_failed, Row, update_where, is_among, claim,
}
use wingmen_orchestrator.Outbox.Telegram.{Post, Outside, World}
use wingmen_orchestrator.Outbox.Delivery.{
  Ending, stale, through, broken, attempt, update_id, mark_sent, mark_failed, status_after, handled,
  settled, attempt_if, deliver_one, deliver_each, Delivered, done, aborted, with_rows, drain_once,
}
use wingmen_orchestrator.Outbox.Delivery.Steps.{
  Delivered-cases, deliver_each-done, deliver_each-aborted,
}

abbrev pub is_over : Status → Bool
is_over sent = true
is_over failed = true
is_over dead = true
is_over _ = false

-- The rows of these ids are over.
abbrev pub Settled : List Row → List Row → Type 0
Settled rs t = All (λ x. is_among rs x ≡ true → is_over x.status ≡ true) t

not_first :
    (r x : Row) (ds : List Row)
    → (x.id == r.id) ≡ false
    → is_among (r ∷ ds) x ≡ true
    → is_among ds x ≡ true
not_first r x ds e a = ground (arith, a, e)

update_where-Settled :
    (f : Row → Row) (r : Row) (ds t : List Row)
    → ((x : Row) → is_over (f x).status ≡ true)
    → Settled ds t
    → Settled (r ∷ ds) (update_where (λ x. x.id == r.id) f t)
unfolding update_where
update_where-Settled f r ds [] o h = tt
update_where-Settled f r ds (x ∷ t) o h =
    (one (x.id == r.id) (λ e a. h.0 (not_first r x ds e a)), update_where-Settled f r ds t o h.1)
  where
    one :
        (b : Bool)
        → (b ≡ false → is_among (r ∷ ds) x ≡ true → is_over x.status ≡ true)
        → is_among (r ∷ ds) (if b then f x else x) ≡ true
        → is_over (if b then f x else x).status ≡ true
    one true k a = o x
    one false k a = k refl a

abbrev AllSettled : List Row → Delivered → Type 0
AllSettled rs (done v) = Settled rs v.rows
AllSettled rs (aborted v) = Unit

failed_over : (n : ℕ) → is_over (status_after n) ≡ true
failed_over n = ground arith

handled-AllSettled :
    (o : Outside) (w : World) (r : Row) (ds : List Row) (e : Error) (posts : List Post)
    → Settled ds w.rows
    → AllSettled (r ∷ ds) (handled o w r e posts)
unfolding update_id
handled-AllSettled o w r ds e posts h =
    if_holds (AllSettled (r ∷ ds)) (o.handler_ok r.id) _ _
      (λ y. update_where-Settled (mark_failed e r) r ds w.rows (λ x. failed_over r.attempts) h)
      (λ n. tt)

settled-AllSettled :
    (o : Outside) (w : World) (r : Row) (ds : List Row) (e : Ending)
    → Settled ds w.rows
    → AllSettled (r ∷ ds) (settled o w r e)
unfolding update_id
settled-AllSettled o w r ds stale h = tt
settled-AllSettled o w r ds (through chat tag posts) h =
    if_holds (AllSettled (r ∷ ds)) (o.writes_ok r.id) _ _
      (λ y. update_where-Settled (mark_sent w.now r) r ds w.rows (λ x. refl) h)
      (λ n. handled-AllSettled o w r ds db_failed posts h)
settled-AllSettled o w r ds (broken e posts) h = handled-AllSettled o w r ds e posts h

deliver_one-AllSettled :
    (o : Outside) (w : World) (r : Row) (ds : List Row)
    → Settled ds w.rows
    → AllSettled (r ∷ ds) (deliver_one o r w)
unfolding deliver_one
deliver_one-AllSettled o w r ds h =
    settled-AllSettled o w r ds (attempt_if (o.reads_ok r.id) o w r) h

-- What ends the pass: a stale reassurance, or the handler's own writes.
abbrev pub Cause : Outside → World → Row → Type 0
Cause o w r = (attempt o w r ≡ stale) ⊎ (o.handler_ok r.id ≡ false)

-- Where a delivery aborts there is a cause, and it has written nothing.
abbrev Aborts : Outside → World → Row → Delivered → Type 0
Aborts o w r (done v) = Unit
Aborts o w r (aborted v) = Cause o w r × (v.rows ≡ w.rows) × (v.messages ≡ w.messages)

handled-Aborts :
    (o : Outside) (w : World) (r : Row) (e : Error) (posts : List Post)
    → Aborts o w r (handled o w r e posts)
unfolding update_id
handled-Aborts o w r e posts =
    if_holds (Aborts o w r) (o.handler_ok r.id) _ _ (λ y. tt) (λ n. (inr n, refl, refl))

settled-Aborts :
    (o : Outside) (w : World) (r : Row) (e : Ending)
    → (e ≡ stale → attempt o w r ≡ stale)
    → Aborts o w r (settled o w r e)
unfolding update_id
settled-Aborts o w r stale k = (inl (k refl), refl, refl)
settled-Aborts o w r (through chat tag posts) k =
    if_holds (Aborts o w r) (o.writes_ok r.id) _ _ (λ y. tt)
      (λ n. handled-Aborts o w r db_failed posts)
settled-Aborts o w r (broken e posts) k = handled-Aborts o w r e posts

attempt_if-stale :
    (b : Bool) (o : Outside) (w : World) (r : Row)
    → attempt_if b o w r ≡ stale
    → attempt o w r ≡ stale
attempt_if-stale true o w r e = e
attempt_if-stale false o w r e = cc

deliver_one-aborted :
    (o : Outside) (w v : World) (r : Row)
    → deliver_one o r w ≡ aborted v
    → Cause o w r × (v.rows ≡ w.rows) × (v.messages ≡ w.messages)
unfolding deliver_one
deliver_one-aborted o w v r e = subst (Aborts o w r) e (
    settled-Aborts o w r (attempt_if (o.reads_ok r.id) o w r)
      (attempt_if-stale (o.reads_ok r.id) o w r))

-- A pass over rows, from a world in which those of `ds` are over: all are over in the end, or an exception
-- ends it at a row. Those before it are over, and at it the table and the log of messages are left as the
-- delivery of these left them.
pub record Stopped (o : Outside) (ds rs : List Row) (w v : World) : Type 0 where
  pub before : List Row
  pub row : Row
  pub after : List Row
  pub split : rs ≡ before ++ (row ∷ after)
  pub at : World
  pub delivered : deliver_each o before w ≡ done at
  pub stopped : deliver_one o row at ≡ aborted v
  pub cause : Cause o at row
  pub same_rows : v.rows ≡ at.rows
  pub same_messages : v.messages ≡ at.messages
  pub over_before :
      All (λ x. is_among ds x || is_among before x ≡ true → is_over x.status ≡ true) v.rows

abbrev pub Outcome : Outside → List Row → List Row → World → Delivered → Type 0
Outcome o ds rs w (done v) =
    All (λ x. is_among ds x || is_among rs x ≡ true → is_over x.status ≡ true) v.rows
Outcome o ds rs w (aborted v) = Stopped o ds rs w v

weaken :
    (p q : Row → Bool) (t : List Row)
    → ((x : Row) → q x ≡ true → p x ≡ true)
    → All (λ x. p x ≡ true → is_over x.status ≡ true) t
    → All (λ x. q x ≡ true → is_over x.status ≡ true) t
weaken p q [] k h = tt
weaken p q (x ∷ t) k h = ((λ e. h.0 (k x e)), weaken p q t k h.1)

swap :
    (ds rs : List Row) (r x : Row)
    → is_among ds x || is_among (r ∷ rs) x ≡ true
    → is_among (r ∷ ds) x || is_among rs x ≡ true
swap ds rs r x h = ground (arith, h)

at_done :
    (o : Outside) (ds rs : List Row) (r : Row) (w v : World) (d : Delivered)
    → deliver_one o r w ≡ done v
    → Outcome o (r ∷ ds) rs v d
    → Outcome o ds (r ∷ rs) w d
unfolding deliver_each
at_done o ds rs r w v (done u) e h =
    weaken (λ x. is_among (r ∷ ds) x || is_among rs x) (λ x. is_among ds x || is_among (r ∷ rs) x)
      u.rows (λ x k. swap ds rs r x k) h
at_done o ds rs r w v (aborted u) e h = record {
  before = r ∷ h.before;
  row = h.row;
  after = h.after;
  split = ap (λ l. r ∷ l) h.split;
  at = h.at;
  delivered = deliver_each-done o r h.before w v e ∙ h.delivered;
  stopped = h.stopped;
  cause = h.cause;
  same_rows = h.same_rows;
  same_messages = h.same_messages;
  over_before =
      weaken (λ x. is_among (r ∷ ds) x || is_among h.before x)
        (λ x. is_among ds x || is_among (r ∷ h.before) x) u.rows (λ x k. swap ds h.before r x k)
        h.over_before;
}

only_first :
    (ds : List Row) (x : Row) → is_among ds x || is_among [] x ≡ true → is_among ds x ≡ true
only_first ds x h = ground (arith, h)

at_aborted :
    (o : Outside) (ds rs : List Row) (r : Row) (w v : World)
    → deliver_one o r w ≡ aborted v
    → Settled ds w.rows
    → Stopped o ds (r ∷ rs) w v
at_aborted o ds rs r w v e h =
    let (cause, same_rows, same_messages) = deliver_one-aborted o w v r e in
    record {
      before = [];
      row = r;
      after = rs;
      split = refl;
      at = w;
      delivered = unfold deliver_each in refl;
      stopped = e;
      cause = cause;
      same_rows = same_rows;
      same_messages = same_messages;
      over_before =
          weaken (λ x. is_among ds x) (λ x. is_among ds x || is_among [] x) v.rows
            (λ x k. only_first ds x k) (subst (Settled ds) (sym same_rows) h);
    }

deliver_each-Outcome :
    (o : Outside) (ds rs : List Row) (w : World)
    → Settled ds w.rows
    → Outcome o ds rs w (deliver_each o rs w)
deliver_each-Outcome o ds [] w h =
    unfold deliver_each in
    weaken (λ x. is_among ds x) (λ x. is_among ds x || is_among [] x) w.rows
      (λ x k. only_first ds x k) h
deliver_each-Outcome o ds (r ∷ rs) w h = elim (Delivered-cases (deliver_one o r w)) [
  | inl (v, e) ↦ subst (Outcome o ds (r ∷ rs) w) (sym (deliver_each-done o r rs w v e)) (
      at_done o ds rs r w v (deliver_each o rs v) e (
        deliver_each-Outcome o (r ∷ ds) rs v
          (subst (AllSettled (r ∷ ds)) e (deliver_one-AllSettled o w r ds h))))
  | inr (v, e) ↦
      subst (Outcome o ds (r ∷ rs) w) (sym (deliver_each-aborted o r rs w v e))
        (at_aborted o ds rs r w v e h)
]

none_first : (rs x : List Row) → All (λ y. is_among [] y ≡ true → is_over y.status ≡ true) x
none_first rs [] = tt
none_first rs (y ∷ x) = ((λ e. cc), none_first rs x)

-- A pass whose claim succeeds and that ends has brought every row that the database returned to sent, failed or
-- dead, in whatever order they came. One that an exception ends has met a reassurance that is stale, or a row
-- for which the handler's own writes fail: it has brought the rows before this one there, the table and the log
-- of messages are as the delivery of these left them, and no row behind this one has been tried.
pub drain_once-Outcome :
    (o : Outside) (w : World)
    → Outcome o []
        (o.returned (claim w.now w.rows).0)
        (with_rows w (claim w.now w.rows).1)
        (drain_once o w)
unfolding drain_once
drain_once-Outcome o w =
    deliver_each-Outcome o [] (o.returned (claim w.now w.rows).0)
      (with_rows w (claim w.now w.rows).1) (none_first [] (claim w.now w.rows).1)
