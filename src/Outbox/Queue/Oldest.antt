-- ===== src/Outbox/Queue/Oldest.antt =====
-- The age and the number of the rows that the claim returns.
use mathlib.Core.Path.{subst}
use wingmen_orchestrator.Prelude.{
  ℕ, zero, suc, ◌≤◌, ◌≡◌, ◌≢◌, ◌∙◌, refl, sym, ap, true, false, List, [], ◌∷◌, All, map, take,
  length, length-take_le, leb, ◌==◌, nat_eq, arith, Bool-cases, inl, inr,
}
use wingmen_orchestrator.Outbox.Queue.{
  Row, update_where, select, requeue_all, insert, sort, take_up, is_among, claim,
}
use wingmen_orchestrator.Outbox.Queue.Claims.{
  is_due, UniqueIds, due_rows, due_rows-Agree, is_among-sort, is_among-take_up, claim-due_rows,
}

abbrev Sorted : List Row → Type 0
Sorted [] = Unit
Sorted (r ∷ t) = All (λ s. r.created_at ≤ s.created_at) t × Sorted t

pub insert-All : (P : Row → Type 0) (r : Row) (l : List Row) → P r → All P l → All P (insert r l)
unfolding insert
insert-All P r [] p h = (p, tt)
insert-All P r (x ∷ l) p h = elim (Bool-cases (leb r.created_at x.created_at)) [
  | inl e ↦ rw e (p, h)
  | inr e ↦ rw e (h.0, insert-All P r l p h.1)
]

pub sort-All : (P : Row → Type 0) (l : List Row) → All P l → All P (sort l)
unfolding sort
sort-All P [] h = tt
sort-All P (x ∷ l) h = insert-All P x (sort l) h.0 (sort-All P l h.1)

above :
    (c d : ℕ) (l : List Row) → c ≤ d → All (λ s. d ≤ s.created_at) l → All (λ s. c ≤ s.created_at) l
above c d [] e h = tt
above c d (x ∷ l) e h = (omega (arith, h.0), above c d l e h.1)

insert-Sorted : (r : Row) (l : List Row) → Sorted l → Sorted (insert r l)
unfolding insert
insert-Sorted r [] h = (tt, tt)
insert-Sorted r (x ∷ l) h = elim (Bool-cases (leb r.created_at x.created_at)) [
  | inl e ↦
      let le : r.created_at ≤ x.created_at = ground (arith, e) in
      rw e ((le, above r.created_at x.created_at l le h.0), h)
  | inr e ↦
      let le : x.created_at ≤ r.created_at = ground (arith, e) in
      rw e (insert-All (λ s. x.created_at ≤ s.created_at) r l le h.0, insert-Sorted r l h.1)
]

sort-Sorted : (l : List Row) → Sorted (sort l)
unfolding sort
sort-Sorted [] = tt
sort-Sorted (x ∷ l) = insert-Sorted x (sort l) (sort-Sorted l)

-- A row of the same id is of the same time.
abbrev Same : Row → Row → Type 0
Same r s = s.id ≡ r.id → s.created_at ≡ r.created_at

due_rows-Same : (now : ℕ) (r : Row) (t : List Row) → All (Same r) t → All (Same r) (due_rows now t)
unfolding due_rows select requeue_all update_where
due_rows-Same now r [] h = tt
due_rows-Same now r (x ∷ t) h = let ih = due_rows-Same now r t h.1 in ground (arith, ih, h.0)

unique-Same : (t : List Row) → UniqueIds t → All (λ r. All (Same r) t) t
unique-Same [] u = tt
unique-Same (x ∷ t) u = (((λ e. refl), apart t u.0), later t u.0 (unique-Same t u.1))
  where
    apart : (l : List Row) → All (λ s. x.id ≢ s.id) l → All (Same x) l
    apart [] h = tt
    apart (s ∷ l) h = ((λ e. absurd (h.0 (sym e))), apart l h.1)

    later :
        (l : List Row)
        → All (λ s. x.id ≢ s.id) l
        → All (λ r. All (Same r) t) l
        → All (λ r. All (Same r) (x ∷ t)) l
    later [] h k = tt
    later (s ∷ l) h k = (((λ e. absurd (h.0 e)), k.0), later l h.1 k.1)

reach :
    (c : ℕ) (r : Row) (l : List Row)
    → All (λ s. c ≤ s.created_at) l
    → All (Same r) l
    → is_among l r ≡ true
    → c ≤ r.created_at
reach c r [] a b h = cc
reach c r (x ∷ l) a b h = elim (Bool-cases (x.id == r.id)) [
  | inl e ↦ let same = b.0 (ground (arith, e)) in omega (arith, same, a.0)
  | inr e ↦ reach c r l a.1 b.1 (ground (arith, e, h))
]

take-Older :
    (n : ℕ) (r : Row) (l : List Row)
    → Sorted l
    → All (Same r) l
    → is_among l r ≡ true
    → is_among (take n l) r ≡ false
    → All (λ s. s.created_at ≤ r.created_at) (take n l)
take-Older zero r l a b h g = tt
take-Older (suc n) r [] a b h g = tt
take-Older (suc n) r (x ∷ l) a b h g =
    let other : (x.id == r.id) ≡ false = ground (arith, g) in
    let here : is_among l r ≡ true = ground (arith, h, other) in
    let gone : is_among (take n l) r ≡ false = ground (arith, g, other) in
    (reach x.created_at r l a.0 b.1 here, take-Older n r l a.1 b.1 here gone)

map-Older :
    (c : ℕ) (l : List Row)
    → All (λ s. s.created_at ≤ c) l
    → All (λ s. s.created_at ≤ c) (map take_up l)
map-Older c [] h = tt
map-Older c (x ∷ l) h = (h.0, map-Older c l h.1)

length-take_up : (l : List Row) → length (map take_up l) ≡ length l
length-take_up [] = refl
length-take_up (x ∷ l) = ap suc (length-take_up l)

-- At most 20 rows, and none behind one that is due and waits.
pub record Oldest (now : ℕ) (t claimed : List Row) : Type 0 where
  pub few : length claimed ≤ 20
  pub oldest :
      All
        (λ r.
          is_due now r ≡ true
          → is_among claimed r ≡ false
          → All (λ s. s.created_at ≤ r.created_at) claimed)
        t

-- In a table with distinct ids, the claim returns at most 20 rows, and none of them was created after
-- a row that is due and is not returned.
pub claim-Oldest : (now : ℕ) (t : List Row) → UniqueIds t → Oldest now t (claim now t).0
claim-Oldest now t u =
    let l = sort (due_rows now t) in
    subst (λ c. Oldest now t c) (sym (claim-due_rows now t))
      record {
        few = omega (arith, length-take_up (take 20 l), length-take_le 20 l);
        oldest = each t (due_rows-Agree now t u) (unique-Same t u);
      }
  where
    one :
        (r : Row)
        → is_among (due_rows now t) r ≡ is_due now r
        → All (Same r) t
        → is_due now r ≡ true
        → is_among (map take_up (take 20 (sort (due_rows now t)))) r ≡ false
        → All (λ s. s.created_at ≤ r.created_at) (map take_up (take 20 (sort (due_rows now t))))
    one r a b d w =
        let l = sort (due_rows now t) in
        map-Older r.created_at (take 20 l) (
          take-Older 20 r l (sort-Sorted (due_rows now t))
            (sort-All (Same r) (due_rows now t) (due_rows-Same now r t b))
            (is_among-sort r (due_rows now t) ∙ a ∙ d) (sym (is_among-take_up r (take 20 l)) ∙ w))

    each :
        (m : List Row)
        → All (λ r. is_among (due_rows now t) r ≡ is_due now r) m
        → All (λ r. All (Same r) t) m
        → All
            (λ r.
              is_due now r ≡ true
              → is_among (map take_up (take 20 (sort (due_rows now t)))) r ≡ false
              → All
                  (λ s. s.created_at ≤ r.created_at)
                  (map take_up (take 20 (sort (due_rows now t)))))
            m
    each [] a b = tt
    each (r ∷ m) a b = (one r a.0 b.0, each m a.1 b.1)
