-- ===== src/SqlLint/Statements/Join.antt =====
-- The statements and their text.
use mathlib.Core.Path.{subst}
use wingmen_orchestrator.Prelude.{
  ℕ, ◌+◌, ◌≡◌, ◌∙◌, refl, sym, ap, Bool, true, false, not, ◌&&◌, Option, none, some, List, [], ◌∷◌,
  ◌++◌, ◌⊎◌, inl, inr, length, is_empty, ◌==◌, nat_eq, if◌then◌else◌, arith, Bool-cases,
}
use wingmen_orchestrator.Prelude.Texts.{Text, strip}
use wingmen_orchestrator.SqlLint.Statements.{
  quote, semicolon, Move, more, close, next_is_quote, move, next_move, split_from, split_statements,
}

-- Whether an odd number of quotes has gone by; `none` behind a semicolon that an even number has.
unfoldable pub parity : Bool → Text → Option Bool
parity odd [] = some odd
parity odd (c ∷ s) =
    let rest = parity (if c == quote then not odd else odd) s in
    if c == semicolon && not odd then none else rest

abbrev pub one_on : Option Bool → ℕ → Option Bool
one_on none c = none
one_on (some odd) c =
    if c == semicolon && not odd then none else some (if c == quote then not odd else odd)

parity-snoc : (odd : Bool) (s : Text) (c : ℕ) → parity odd (s ++ (c ∷ [])) ≡ one_on (parity odd s) c
unfolding parity
parity-snoc odd [] c = ground arith
parity-snoc odd (d ∷ s) c = elim (Bool-cases (d == semicolon && not odd)) [
  | inl e ↦ rw e refl
  | inr e ↦ rw e (parity-snoc (if d == quote then not odd else odd) s c)
]

-- A statement that is closed: its semicolon is the first one outside of quotes.
abbrev pub Closed : Text → Type 0
Closed t = (body : Text) × (t ≡ body ++ (semicolon ∷ [])) × (parity false body ≡ some false)

-- The statements from an offset on: each stands where it says, all but an open last one, which is not
-- blank, are closed, and with the blank behind them they are the text.
abbrev pub Splits : ℕ → Text → List (ℕ × Text) → Type 0
Splits start text [] = is_empty (strip text) ≡ true
Splits start text ((at, t) ∷ out) =
    (at ≡ start)
    × ((Closed t × ((rest : Text) × (text ≡ t ++ rest) × Splits (start + length t) rest out))
        ⊎ ((text ≡ t)
            × (out ≡ [])
            × (is_empty (strip t) ≡ false)
            × ((odd : Bool) × (parity false t ≡ some odd))))

-- What the loop knows: the parity of the slice, and that a skipped character is a quote.
abbrev Knows : Text → Bool → Bool → Text → Type 0
Knows cur in_string true rest =
    (in_string ≡ true) × (next_is_quote rest ≡ true) × (parity false cur ≡ some false)
Knows cur in_string false rest = parity false cur ≡ some in_string

append-snoc : (cur : Text) (c : ℕ) (s : Text) → cur ++ (c ∷ s) ≡ (cur ++ (c ∷ [])) ++ s
append-snoc [] c s = refl
append-snoc (d ∷ cur) c s = ap (λ t. d ∷ t) (append-snoc cur c s)

append-nil_back : (cur : Text) → cur ≡ cur ++ []
append-nil_back [] = refl
append-nil_back (d ∷ cur) = ap (λ t. d ∷ t) (append-nil_back cur)

-- What one step leaves.
abbrev After : Text → ℕ → Text → Move → Type 0
After cur c s (more q k) = Knows (cur ++ (c ∷ [])) q k s
After cur c s close = (c ≡ semicolon) × (parity false cur ≡ some false)

grown :
    (cur : Text) (odd : Bool) (c : ℕ)
    → parity false cur ≡ some odd
    → parity false (cur ++ (c ∷ [])) ≡ one_on (some odd) c
grown cur odd c h = parity-snoc false cur c ∙ ap (λ o. one_on o c) h

at_skip :
    (cur : Text) (q : Bool) (c : ℕ) (s : Text)
    → Knows cur q true (c ∷ s)
    → After cur c s (more q false)
at_skip cur q c s (inside, quoted, even) = grown cur false c even ∙ turned c q inside quoted
  where
    turned : (c : ℕ) (q : Bool) → q ≡ true → (c == quote) ≡ true → one_on (some false) c ≡ some q
    turned c q a b = ground (arith, a, b)

at_move :
    (cur : Text) (q : Bool) (c : ℕ) (s : Text)
    → parity false cur ≡ some q
    → After cur c s (move q c s)
unfolding move
at_move cur true c s h = elim (Bool-cases (c == quote)) [
  | inl e ↦ elim (Bool-cases (next_is_quote s)) [
    | inl n ↦ rw (e, n) (refl, n, grown cur true c h ∙ quoted c e)
    | inr n ↦ rw (e, n) (grown cur true c h ∙ quoted c e)
  ]
  | inr e ↦ rw e (plain c e (grown cur true c h))
]
  where
    quoted : (c : ℕ) → (c == quote) ≡ true → one_on (some true) c ≡ some false
    quoted c e = ground (arith, e)

    plain :
        (c : ℕ)
        → (c == quote) ≡ false
        → parity false (cur ++ (c ∷ [])) ≡ one_on (some true) c
        → After cur c s (if c == semicolon && not true then close else more true false)
    plain c e k = elim (Bool-cases (c == semicolon)) [
      | inl f ↦ rw f (k ∙ kept c e f)
      | inr f ↦ rw f (k ∙ kept_other c e f)
    ]
      where
        kept :
            (c : ℕ)
            → (c == quote) ≡ false
            → (c == semicolon) ≡ true
            → one_on (some true) c ≡ some true
        kept c e f = ground (arith, e, f)

        kept_other :
            (c : ℕ)
            → (c == quote) ≡ false
            → (c == semicolon) ≡ false
            → one_on (some true) c ≡ some true
        kept_other c e f = ground (arith, e, f)
at_move cur false c s h = elim (Bool-cases (c == quote)) [
  | inl e ↦ rw e (grown cur false c h ∙ opened c e)
  | inr e ↦ elim (Bool-cases (c == semicolon)) [
    | inl f ↦ rw (e, f) (same c f, h)
    | inr f ↦ rw (e, f) (grown cur false c h ∙ kept c e f)
  ]
]
  where
    opened : (c : ℕ) → (c == quote) ≡ true → one_on (some false) c ≡ some true
    opened c e = ground (arith, e)

    same : (c : ℕ) → (c == semicolon) ≡ true → c ≡ semicolon
    same c f = ground (arith, f)

    kept :
        (c : ℕ)
        → (c == quote) ≡ false
        → (c == semicolon) ≡ false
        → one_on (some false) c ≡ some false
    kept c e f = ground (arith, e, f)

next_move-After :
    (cur : Text) (in_string skip : Bool) (c : ℕ) (s : Text)
    → Knows cur in_string skip (c ∷ s)
    → After cur c s (next_move in_string skip c s)
next_move-After cur q true c s h = at_skip cur q c s h
next_move-After cur q false c s h = at_move cur q c s h

-- The same from the middle of a statement: the slice so far and what follows are the text.
split_from-Splits :
    (start : ℕ) (cur : Text) (in_string skip : Bool) (s : Text)
    → Knows cur in_string skip s
    → Splits start (cur ++ s) (split_from start cur in_string skip s)
unfolding split_from parity
split_from-Splits start cur q true [] h = absurd (none_next h.1)
  where
    none_next : next_is_quote [] ≡ true → ⊥
    none_next h = cc
split_from-Splits start cur q false [] h = elim (Bool-cases (is_empty (strip cur))) [
  | inl e ↦ rw e (subst (λ t. is_empty (strip t) ≡ true) (append-nil_back cur) e)
  | inr e ↦ rw e (refl, inr (sym (append-nil_back cur), refl, e, (q, h)))
]
split_from-Splits start cur q skip (c ∷ s) h =
    let a = next_move-After cur q skip c s h in
    stepped (next_move q skip c s) a (λ p k w. split_from-Splits start (cur ++ (c ∷ [])) p k s w)
      (split_from-Splits (start + length (cur ++ (c ∷ []))) [] false false s refl)
  where
    stepped :
        (m : Move)
        → After cur c s m
        → ((p k : Bool)
            → Knows (cur ++ (c ∷ [])) p k s
            → Splits start ((cur ++ (c ∷ [])) ++ s) (split_from start (cur ++ (c ∷ [])) p k s))
        → Splits
            (start + length (cur ++ (c ∷ [])))
            s
            (split_from (start + length (cur ++ (c ∷ []))) [] false false s)
        → Splits start (cur ++ (c ∷ s)) (elim m [
          | more p k ↦ split_from start (cur ++ (c ∷ [])) p k s
          | close ↦
              (start, cur ++ (c ∷ []))
              ∷ split_from (start + length (cur ++ (c ∷ []))) [] false false s
        ])
    stepped (more p k) a on off =
        subst (λ t. Splits start t (split_from start (cur ++ (c ∷ [])) p k s))
          (sym (append-snoc cur c s)) (on p k a)
    stepped close (same, even) on off =
        (refl, inl ((cur, ap (λ x. cur ++ (x ∷ [])) same, even), (s, append-snoc cur c s, off)))

-- The statements of a text give it back: each starts where the ones before it end, every one but perhaps
-- the last ends at its first semicolon with an even number of quotes before it, a last one that is open
-- has no such semicolon and is not blank, and what stands behind the closed ones is else blank.
pub split_statements-Splits : (sql : Text) → Splits 0 sql (split_statements sql)
unfolding split_statements parity
split_statements-Splits sql = split_from-Splits 0 [] false false sql refl
