-- ===== src/Outbox/Queue/Claims.antt =====
-- What the claim returns.
use wingmen_orchestrator.Prelude.{
  ℕ, zero, suc, ◌≤◌, ◌≡◌, ◌≢◌, ◌∙◌, refl, ap, Bool, false, ◌&&◌, ◌||◌, List, [], ◌∷◌, All, map,
  take, length, ltb, ◌+◌, ◌==◌, nat_eq, arith,
}
use wingmen_orchestrator.Outbox.Queue.{
  Row, is_queued, is_failed, is_sending, update_where, select, requeue_all, insert, sort, take_up,
  picked, is_among, claim,
}

-- Queued, failed and 30 seconds old, or being sent and 120 seconds old.
abbrev pub is_due : ℕ → Row → Bool
is_due now r =
    is_queued r.status
    || is_failed r.status && ltb (r.created_at + 30) now
    || is_sending r.status && ltb (r.created_at + 120) now

-- The primary key.
abbrev pub UniqueIds : List Row → Type 0
UniqueIds [] = Unit
UniqueIds (r ∷ t) = All (λ x. r.id ≢ x.id) t × UniqueIds t

unfoldable pub due_rows : ℕ → List Row → List Row
unfolding select requeue_all
due_rows now t = select (λ r. is_queued r.status) (requeue_all now t)

due_rows-step :
    (now : ℕ) (x r : Row) (t : List Row)
    → is_among (due_rows now (x ∷ t)) r
      ≡ (is_due now x && x.id == r.id || is_among (due_rows now t) r)
unfolding due_rows select requeue_all update_where
due_rows-step now x r t = ground (arith)

due_rows-absent :
    (now : ℕ) (r : Row) (t : List Row)
    → All (λ x. r.id ≢ x.id) t
    → is_among (due_rows now t) r ≡ false
unfolding due_rows select requeue_all update_where
due_rows-absent now r [] h = refl
due_rows-absent now r (x ∷ t) h =
    ground (arith, due_rows-step now x r t, due_rows-absent now r t h.1)

pub due_rows-Agree :
    (now : ℕ) (t : List Row) → UniqueIds t → All (λ r. is_among (due_rows now t) r ≡ is_due now r) t
due_rows-Agree now [] u = tt
due_rows-Agree now (x ∷ t) u = (
  ground (arith, due_rows-step now x x t, due_rows-absent now x t u.0),
  later t u.0 (due_rows-Agree now t u.1),
)
  where
    later :
        (l : List Row)
        → All (λ r. x.id ≢ r.id) l
        → All (λ r. is_among (due_rows now t) r ≡ is_due now r) l
        → All (λ r. is_among (due_rows now (x ∷ t)) r ≡ is_due now r) l
    later [] a b = tt
    later (r ∷ l) a b = (ground (arith, due_rows-step now x r t, a.0, b.0), later l a.1 b.1)

is_among-insert :
    (s r : Row) (l : List Row) → is_among (insert s l) r ≡ (s.id == r.id || is_among l r)
unfolding insert
is_among-insert s r [] = refl
is_among-insert s r (x ∷ l) = ground (arith, is_among-insert s r l)

pub is_among-sort : (r : Row) (l : List Row) → is_among (sort l) r ≡ is_among l r
unfolding sort
is_among-sort r [] = refl
is_among-sort r (x ∷ l) = ground (arith, is_among-insert x r (sort l), is_among-sort r l)

pub is_among-take_up : (r : Row) (l : List Row) → is_among (map take_up l) r ≡ is_among l r
is_among-take_up r [] = refl
is_among-take_up r (x ∷ l) = ground (arith, is_among-take_up r l)

length-insert : (r : Row) (l : List Row) → length (insert r l) ≡ suc (length l)
unfolding insert
length-insert r [] = refl
length-insert r (x ∷ l) = ground (arith, length-insert r l)

length-sort : (l : List Row) → length (sort l) ≡ length l
unfolding sort
length-sort [] = refl
length-sort (x ∷ l) = ground (arith, length-insert x (sort l), length-sort l)

length-due_rows : (now : ℕ) (t : List Row) → length (due_rows now t) ≤ length t
unfolding due_rows select requeue_all update_where
length-due_rows now [] = omega arith
length-due_rows now (x ∷ t) = ground (arith, length-due_rows now t)

take-all : (n : ℕ) (l : List Row) → length l ≤ n → take n l ≡ l
take-all zero [] h = refl
take-all zero (x ∷ l) h = absurd (omega arith)
take-all (suc n) [] h = refl
take-all (suc n) (x ∷ l) h = ap (λ k. x ∷ k) (take-all n l (omega arith))

pub claim-due_rows :
    (now : ℕ) (t : List Row) → (claim now t).0 ≡ map take_up (take 20 (sort (due_rows now t)))
unfolding claim picked due_rows
claim-due_rows now t = refl

claim_some :
    (now : ℕ) (r : Row) (t : List Row)
    → length t ≤ 20
    → is_among (claim now t).0 r ≡ is_among (due_rows now t) r
claim_some now r t h =
    let short =
      take-all 20 (sort (due_rows now t))
        (omega (arith, length-sort (due_rows now t), length-due_rows now t, h)) in
    ap (λ l. is_among l r) (claim-due_rows now t ∙ ap (map take_up) short)
    ∙ is_among-take_up r (sort (due_rows now t))
    ∙ is_among-sort r (due_rows now t)

-- In a table of at most 20 rows with distinct ids, the claim returns just the rows that are queued,
-- that have failed and were created more than 30 seconds ago, or that are being sent and were created
-- more than 120 seconds ago: neither the time of the last attempt nor that of the claim counts.
pub claim-Agree :
    (now : ℕ) (t : List Row)
    → length t ≤ 20
    → UniqueIds t
    → All (λ r. is_among (claim now t).0 r ≡ is_due now r) t
claim-Agree now t h u = each t (due_rows-Agree now t u)
  where
    each :
        (l : List Row)
        → All (λ r. is_among (due_rows now t) r ≡ is_due now r) l
        → All (λ r. is_among (claim now t).0 r ≡ is_due now r) l
    each [] a = tt
    each (r ∷ l) a = (claim_some now r t h ∙ a.0, each l a.1)
