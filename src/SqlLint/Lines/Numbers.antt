-- ===== src/SqlLint/Lines/Numbers.antt =====
-- The number of a line.
use wingmen_orchestrator.Prelude.{
  ℕ, zero, suc, ◌+◌, ◌-◌, ◌≤◌, ◌<◌, ◌≡◌, refl, ap, some, List, [], ◌∷◌, length, ltb, leb, arith,
  Bool-cases, inl, inr,
}
use wingmen_orchestrator.Prelude.Texts.{Text}
use wingmen_orchestrator.SqlLint.Lines.{line_starts, at, middle, search, next_of, lineno}

abbrev Ascending : List ℕ → Type 0
Ascending starts = (i j : ℕ) → i ≤ j → j < length starts → at starts i ≤ at starts j

line_starts-at :
    (pos i : ℕ) (lines : List Text)
    → i < length (line_starts pos lines)
    → pos ≤ at (line_starts pos lines) i
unfolding line_starts
line_starts-at pos i [] h = absurd (omega arith)
line_starts-at pos zero (l ∷ lines) h = omega arith
line_starts-at pos (suc i) (l ∷ lines) h =
    omega (arith, line_starts-at (pos + length l) i lines (omega arith))

line_starts-Ascending : (pos : ℕ) (lines : List Text) → Ascending (line_starts pos lines)
unfolding line_starts
line_starts-Ascending pos [] i j a b = omega arith
line_starts-Ascending pos (l ∷ lines) zero zero a b = omega arith
line_starts-Ascending pos (l ∷ lines) zero (suc j) a b =
    omega (arith, line_starts-at (pos + length l) j lines (omega arith))
line_starts-Ascending pos (l ∷ lines) (suc i) zero a b = absurd (omega arith)
line_starts-Ascending pos (l ∷ lines) (suc i) (suc j) a b =
    line_starts-Ascending (pos + length l) lines i j (omega arith) (omega arith)

-- The last line that starts at the position or before it.
pub record LastBefore (starts : List ℕ) (char_pos i : ℕ) : Type 0 where
  pub in_range : i < length starts
  pub starts_before : at starts i ≤ char_pos
  pub last : (j : ℕ) → i < j → j < length starts → char_pos < at starts j

middle_bounds : (lo hi : ℕ) → lo < hi → (lo < middle lo hi) × (middle lo hi ≤ hi)
middle_bounds lo hi h = (omega arith, omega arith)

module _ (starts : List ℕ) (char_pos : ℕ) (asc : Ascending starts) where
  search-LastBefore :
      (fuel lo hi : ℕ)
      → hi ≤ lo + fuel
      → lo ≤ hi
      → hi < length starts
      → at starts lo ≤ char_pos
      → ((j : ℕ) → hi < j → j < length starts → char_pos < at starts j)
      → (i : ℕ) × (search fuel starts char_pos lo hi ≡ some i) × LastBefore starts char_pos i
  unfolding search
  search-LastBefore zero lo hi f le r b l = (
    lo,
    ground arith,
    record { in_range = omega arith; starts_before = b; last = λ j a k. l j (omega arith) k },
  )
  search-LastBefore (suc fuel) lo hi f le r b l = elim (Bool-cases (ltb lo hi)) [
    | inr e ↦
        let same : hi ≤ lo = ground (arith, e) in
        (
          lo,
          rw e refl,
          record {
            in_range = omega arith;
            starts_before = b;
            last = λ j a k. l j (omega (arith, same, le, a)) k;
          },
        )
    | inl e ↦
        let less : lo < hi = ground (arith, e) in
        let m = middle_bounds lo hi less in
        elim (Bool-cases (leb (at starts (middle lo hi)) char_pos)) [
          | inl g ↦
              let low : at starts (middle lo hi) ≤ char_pos = ground (arith, g) in
              rw (e, g)
                (search-LastBefore fuel (middle lo hi) hi (omega (arith, m.0, f)) m.1 r low l)
          | inr g ↦
              let high : char_pos < at starts (middle lo hi) = ground (arith, g) in
              rw (e, g)
                (search-LastBefore fuel lo (middle lo hi - 1) (omega (arith, m.0, m.1, f))
                  (omega (arith, m.0)) (omega (arith, m.1, r)) b
                  (λ j a k. omega (arith, high, asc (middle lo hi) j (omega (arith, a)) k)))
        ]
  ]

line_starts-nonempty : (l : Text) (lines : List Text) → at (line_starts 0 (l ∷ lines)) 0 ≡ 0
unfolding line_starts
line_starts-nonempty l lines = refl

length-line_starts : (pos : ℕ) (lines : List Text) → length (line_starts pos lines) ≡ length lines
unfolding line_starts
length-line_starts pos [] = refl
length-line_starts pos (l ∷ lines) = ap suc (length-line_starts (pos + length l) lines)

-- In a text with a line, the search ends within one round for each line, and the number that it gives,
-- from 1, is that of the last line that starts at the position or before it.
pub lineno-LastBefore :
    (l : Text) (lines : List Text) (char_pos : ℕ)
    → (i : ℕ) × (lineno (line_starts 0 (l ∷ lines)) char_pos ≡ some (i + 1))
      × LastBefore (line_starts 0 (l ∷ lines)) char_pos i
unfolding lineno
lineno-LastBefore l lines char_pos =
    let starts = line_starts 0 (l ∷ lines) in
    let n = length-line_starts 0 (l ∷ lines) in
    let found =
      search-LastBefore starts char_pos (line_starts-Ascending 0 (l ∷ lines)) (length starts) 0
        (length starts - 1) (omega arith) (omega arith) (omega (arith, n))
        (omega (arith, line_starts-nonempty l lines)) (λ j a k. absurd (omega (arith, a, k))) in
    (found.0, ap next_of found.1, found.2)
