-- ===== src/Outbox/Chunks/Split.antt =====
-- The parts of a text.
use wingmen_orchestrator.Prelude.{
  ℕ, zero, suc, ◌<◌, ◌≤◌, ◌≡◌, ◌≢◌, ◌∙◌, refl, sym, ap, true, Option, some, List, [], ◌∷◌, ◌++◌,
  All, length, take, drop, Bool-cases, Option-cases, inl, inr, arith, leb, nat_eq, if◌then◌else◌,
  take-append-drop, length-drop, length-take_le,
}
use wingmen_orchestrator.Prelude.Texts.{Text}
use wingmen_orchestrator.Outbox.Chunks.{
  is_break, last_break, cut_at, lstrip_breaks, prepend, chunk_loop, chunk_text,
}

last_break-lt : (s : Text) {i : ℕ} → last_break s ≡ some i → i < length s
unfolding last_break
last_break-lt [] h = cc
last_break-lt (c ∷ s) h = elim (Option-cases (last_break s)) [
  | inl e ↦ ground (arith, e)
  | inr (j, e) ↦ ground (arith, e, last_break-lt s e)
]

-- The cut takes at least one character, and no more than the window has.
cut_at_bounds :
    (limit : ℕ) (window : Text)
    → 0 < limit
    → length window ≤ limit
    → (0 < cut_at limit window) × (cut_at limit window ≤ limit)
unfolding cut_at
cut_at_bounds limit window pos h = elim (Option-cases (last_break window)) [
  | inl e ↦ rw e (pos, omega arith)
  | inr (i, e) ↦ let below = last_break-lt window e in rw e (ground (arith, below))
]

-- What is stripped, and that it is all breaks.
stripped : Text → Text
stripped [] = []
stripped (c ∷ s) = let rest = stripped s in if is_break c then c ∷ rest else []

stripped-append : (s : Text) → s ≡ stripped s ++ lstrip_breaks s
unfolding stripped lstrip_breaks
stripped-append [] = refl
stripped-append (c ∷ s) = ground (arith, stripped-append s)

stripped-All : (s : Text) → All (λ c. is_break c ≡ true) (stripped s)
unfolding stripped
stripped-All [] = tt
stripped-All (c ∷ s) = ground (arith, stripped-All s)

lstrip_breaks-le : (s : Text) → length (lstrip_breaks s) ≤ length s
unfolding lstrip_breaks
lstrip_breaks-le [] = omega arith
lstrip_breaks-le (c ∷ s) = ground (arith, lstrip_breaks-le s)

-- The text is the parts in their order, with nothing but breaks behind each.
abbrev pub Rejoins : List Text → Text → Type 0
Rejoins [] text = text ≡ []
Rejoins (p ∷ ps) text =
    (gap : Text) × (rest : Text) × (text ≡ p ++ (gap ++ rest))
    × All (λ c. is_break c ≡ true) gap
    × Rejoins ps rest

abbrev pub Fits : ℕ → Text → Type 0
Fits limit p = (p ≢ []) × (length p ≤ limit)

-- The parts are found, each fits, and they rejoin.
pub record Chunked (limit : ℕ) (text : Text) (out : Option (List Text)) : Type 0 where
  pub parts : List Text
  pub found : out ≡ some parts
  pub fit : All (Fits limit) parts
  pub rejoin : Rejoins parts text

chunk_step :
    (limit c : ℕ) (s : Text)
    → 0 < limit
    → let cut = cut_at limit (take limit (c ∷ s)) in
      (0 < cut) × (cut ≤ limit) × (length (lstrip_breaks (drop cut (c ∷ s))) ≤ length s)
chunk_step limit c s pos =
    let cut = cut_at limit (take limit (c ∷ s)) in
    let b = cut_at_bounds limit (take limit (c ∷ s)) pos (length-take_le limit (c ∷ s)) in
    (b.0, b.1, omega (arith, b.0, lstrip_breaks-le (drop cut (c ∷ s)), length-drop cut (c ∷ s)))

take-ne : (n c : ℕ) (s : Text) → 0 < n → take n (c ∷ s) ≢ []
take-ne zero c s h = absurd (omega arith)
take-ne (suc n) c s h = λ e. cc

append_empty : (s : Text) → s ≡ s ++ ([] ++ [])
append_empty [] = refl
append_empty (c ∷ s) = ap (λ t. c ∷ t) (append_empty s)

one_part :
    (limit c : ℕ) (s : Text) → length (c ∷ s) ≤ limit → Chunked limit (c ∷ s) (some ((c ∷ s) ∷ []))
one_part limit c s h = record {
  parts = (c ∷ s) ∷ [];
  found = refl;
  fit = (((λ e. cc), h), tt);
  rejoin = ([], [], append_empty (c ∷ s), tt, refl);
}

more_parts :
    (limit c : ℕ) (s : Text)
    → 0 < limit
    → let cut = cut_at limit (take limit (c ∷ s)) in
      let rest = lstrip_breaks (drop cut (c ∷ s)) in
      (out : Option (List Text))
      → Chunked limit rest out
      → Chunked limit (c ∷ s) (prepend (take cut (c ∷ s)) out)
more_parts limit c s pos out w =
    let cut = cut_at limit (take limit (c ∷ s)) in
    let b = chunk_step limit c s pos in
    let behind = drop cut (c ∷ s) in
    let joined =
      sym (take-append-drop cut (c ∷ s))
      ∙ ap (λ t. take cut (c ∷ s) ++ t) (stripped-append behind) in
    record {
      parts = take cut (c ∷ s) ∷ w.parts;
      found = ap (prepend (take cut (c ∷ s))) w.found;
      fit = ((take-ne cut c s b.0, omega (arith, b.1, length-take_le cut (c ∷ s))), w.fit);
      rejoin = (stripped behind, lstrip_breaks behind, joined, stripped-All behind, w.rejoin);
    }

chunk_loop-Chunked :
    (fuel limit : ℕ) (text : Text)
    → 0 < limit
    → length text ≤ fuel
    → Chunked limit text (chunk_loop fuel limit text)
unfolding chunk_loop
chunk_loop-Chunked fuel limit [] pos h = record {
  parts = [];
  found = refl;
  fit = tt;
  rejoin = refl;
}
chunk_loop-Chunked zero limit (c ∷ s) pos h = absurd (omega arith)
chunk_loop-Chunked (suc fuel) limit (c ∷ s) pos h =
    let rest = lstrip_breaks (drop (cut_at limit (take limit (c ∷ s))) (c ∷ s)) in
    let ih = chunk_loop-Chunked fuel limit rest pos (omega (arith, (chunk_step limit c s pos).2)) in
    let more = more_parts limit c s pos (chunk_loop fuel limit rest) ih in
    elim (Bool-cases (leb (length (c ∷ s)) limit)) [
      | inl e ↦ rw e (one_part limit c s (ground (arith, e)))
      | inr e ↦ rw e more
    ]

-- For a limit above 0 the loop ends within one round for each character, and its result is a list
-- of parts, each nonempty and no longer than the limit, that give the text back in their order, with
-- nothing but newlines and spaces left out behind each part.
pub chunk_text-Chunked :
    (limit : ℕ) (text : Text) → 0 < limit → Chunked limit text (chunk_text limit text)
unfolding chunk_text
chunk_text-Chunked limit text pos = chunk_loop-Chunked (length text) limit text pos (omega arith)
