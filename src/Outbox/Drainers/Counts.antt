-- ===== src/Outbox/Drainers/Counts.antt =====
-- The statuses and the attempts.
use wingmen_orchestrator.Prelude.{
  ℕ, zero, suc, ◌≤◌, ◌<◌, ◌≡◌, ◌≢◌, ◌∙◌, refl, sym, Bool, true, false, ◌||◌, List, [], ◌∷◌, ◌++◌,
  All, map, take, nat_eq, arith, Bool-cases, inl, inr,
}
use wingmen_orchestrator.Outbox.Queue.{
  Status, queued, sending, sent, failed, dead, skipped, Row, is_queued, is_failed, is_sending,
  update_where, select, requeue, is_retried, is_recovered, requeue_all, sort, take_up, picked,
  is_among, claim,
}
use wingmen_orchestrator.Outbox.Queue.Claims.{UniqueIds, is_among-sort}
use wingmen_orchestrator.Outbox.Queue.Oldest.{sort-All}

abbrev pub Counted : Status → ℕ → Type 0
Counted queued n = n < 5
Counted sending n = n < 5
Counted failed n = (0 < n) × (n < 5)
Counted sent n = (0 < n) × (n ≤ 5)
Counted dead n = n ≡ 5
Counted skipped n = ⊥

abbrev pub IsCounted : Row → Type 0
IsCounted r = Counted r.status r.attempts

abbrev pub IsOpen : Row → Type 0
IsOpen r = r.attempts < 5

module _ (P : Row → Type 0) where
  pub update_where-All :
      (p : Row → Bool) (f : Row → Row) (t : List Row)
      → ((r : Row) → P r → p r ≡ true → P (f r))
      → All P t
      → All P (update_where p f t)
  unfolding update_where
  update_where-All p f [] k h = tt
  update_where-All p f (r ∷ t) k h = elim (Bool-cases (p r)) [
    | inl e ↦ rw e (k r h.0 e, update_where-All p f t k h.1)
    | inr e ↦ rw e (h.0, update_where-All p f t k h.1)
  ]

  pub append-All : (s t : List Row) → All P s → All P t → All P (s ++ t)
  append-All [] t a b = b
  append-All (r ∷ s) t a b = (a.0, append-All s t a.1 b)

  pub All-without :
      (s : List Row) (r : Row) (t : List Row) → All P (s ++ (r ∷ t)) → P r × All P (s ++ t)
  All-without [] r t a = a
  All-without (x ∷ s) r t a = let ih = All-without s r t a.1 in (ih.0, (a.0, ih.1))

requeue-IsCounted : (s : Status) (n : ℕ) → Counted s n → is_failed s || is_sending s ≡ true → n < 5
requeue-IsCounted s n h e = ground arith

queued_below : (s : Status) (n : ℕ) → Counted s n → is_queued s ≡ true → n < 5
queued_below s n h e = ground arith

pub requeue_all-IsCounted :
    (now : ℕ) (t : List Row) → All IsCounted t → All IsCounted (requeue_all now t)
unfolding requeue_all
requeue_all-IsCounted now t h =
    update_where-All IsCounted (is_recovered now) requeue (update_where (is_retried now) requeue t)
      (λ r k e. requeue-IsCounted r.status r.attempts k (ground (arith, e)))
      (update_where-All IsCounted (is_retried now) requeue t
        (λ r k e. requeue-IsCounted r.status r.attempts k (ground (arith, e))) h)

picked-IsOpen : (t : List Row) → All IsCounted t → All IsOpen (select (λ r. is_queued r.status) t)
unfolding select
picked-IsOpen [] h = tt
picked-IsOpen (r ∷ t) h = elim (Bool-cases (is_queued r.status)) [
  | inl e ↦ rw e (queued_below r.status r.attempts h.0 e, picked-IsOpen t h.1)
  | inr e ↦ rw e (picked-IsOpen t h.1)
]

take-All : (P : Row → Type 0) (n : ℕ) (t : List Row) → All P t → All P (take n t)
take-All P zero t h = tt
take-All P (suc n) [] h = tt
take-All P (suc n) (r ∷ t) h = (h.0, take-All P n t h.1)

take_up-IsOpen : (t : List Row) → All IsOpen t → All IsOpen (map take_up t)
take_up-IsOpen [] h = tt
take_up-IsOpen (r ∷ t) h = (h.0, take_up-IsOpen t h.1)

pub claim-held : (now : ℕ) (t : List Row) → All IsCounted t → All IsOpen (claim now t).0
unfolding claim picked
claim-held now t h =
    let ready = requeue_all now t in
    let queue = select (λ r. is_queued r.status) ready in
    take_up-IsOpen (take 20 (sort queue)) (
      take-All IsOpen 20 (sort queue)
        (sort-All IsOpen queue (picked-IsOpen ready (requeue_all-IsCounted now t h))))

-- Ids are left alone.
abbrev pub KeepsIds : (Row → Row) → Type 0
KeepsIds f = (r : Row) → (f r).id ≡ r.id

update_where-Other :
    (p : Row → Bool) (f : Row → Row) (i : ℕ) (t : List Row)
    → KeepsIds f
    → All (λ x. i ≢ x.id) t
    → All (λ x. i ≢ x.id) (update_where p f t)
unfolding update_where
update_where-Other p f i [] k h = tt
update_where-Other p f i (r ∷ t) k h =
    ((λ e. h.0 (ground (arith, e, k r))), update_where-Other p f i t k h.1)

pub update_where-UniqueIds :
    (p : Row → Bool) (f : Row → Row) (t : List Row)
    → KeepsIds f
    → UniqueIds t
    → UniqueIds (update_where p f t)
unfolding update_where
update_where-UniqueIds p f [] k h = tt
update_where-UniqueIds p f (r ∷ t) k h =
    let rest = update_where-UniqueIds p f t k h.1 in
    let other = update_where-Other p f r.id t k h.0 in
    elim (Bool-cases (p r)) [ inl e ↦ rw (e, k r) (other, rest) | inr e ↦ rw e (other, rest) ]

select-absent :
    (p : Row → Bool) (r : Row) (t : List Row)
    → All (λ x. r.id ≢ x.id) t
    → is_among (select p t) r ≡ false
unfolding select
select-absent p r [] h = refl
select-absent p r (x ∷ t) h = ground (arith, select-absent p r t h.1)

select-Chosen :
    (p : Row → Bool) (t : List Row)
    → UniqueIds t
    → All (λ r. is_among (select p t) r ≡ true → p r ≡ true) t
unfolding select
select-Chosen p [] u = tt
select-Chosen p (x ∷ t) u =
    ((λ e. ground (arith, e, select-absent p x t u.0)), later t u.0 (select-Chosen p t u.1))
  where
    later :
        (l : List Row)
        → All (λ r. x.id ≢ r.id) l
        → All (λ r. is_among (select p t) r ≡ true → p r ≡ true) l
        → All (λ r. is_among (select p (x ∷ t)) r ≡ true → p r ≡ true) l
    later [] a b = tt
    later (r ∷ l) a b = ((λ e. b.0 (ground (arith, e, a.0))), later l a.1 b.1)

is_among-take :
    (n : ℕ) (r : Row) (t : List Row) → is_among (take n t) r ≡ true → is_among t r ≡ true
is_among-take zero r t h = cc
is_among-take (suc n) r [] h = cc
is_among-take (suc n) r (x ∷ t) h = ground (arith, h, is_among-take n r t)

-- A row that is picked is queued.
pub picked-Queued :
    (t : List Row)
    → UniqueIds t
    → All (λ r. is_among (picked t) r ≡ true → is_queued r.status ≡ true) t
unfolding picked
picked-Queued t u = each t (select-Chosen (λ r. is_queued r.status) t u)
  where
    each :
        (l : List Row)
        → All
            (λ r.
              is_among (select (λ x. is_queued x.status) t) r ≡ true → is_queued r.status ≡ true)
            l
        → All
            (λ r.
              is_among (take 20 (sort (select (λ x. is_queued x.status) t))) r ≡ true
              → is_queued r.status ≡ true)
            l
    each [] h = tt
    each (r ∷ l) h =
        let queue = select (λ x. is_queued x.status) t in
        ((λ e. h.0 (sym (is_among-sort r queue) ∙ is_among-take 20 r (sort queue) e)), each l h.1)
