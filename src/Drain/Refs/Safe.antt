-- ===== src/Drain/Refs/Safe.antt =====
-- What a cleaned reference can hold.
use wingmen_orchestrator.Prelude.{
  ℕ, ◌≡◌, ◌≢◌, Bool, true, false, Option, [], ◌∷◌, All, arith, Bool-cases, inl, inr, ◌==◌, nat_eq,
}
use wingmen_orchestrator.Prelude.Texts.{Text}
use wingmen_orchestrator.Drain.Refs.{
  is_safe, dash_unsafe, squeeze_dashes, is_trimmed, trim_start, trim_end, keep_end, or_unknown,
  ref_text, sanitize_ref,
}

abbrev pub AllSafe : Text → Type 0
AllSafe = All (λ c. is_safe c ≡ true)

dash_unsafe-AllSafe : (inside : Bool) (s : Text) → AllSafe (dash_unsafe inside s)
unfolding dash_unsafe
dash_unsafe-AllSafe inside [] = tt
dash_unsafe-AllSafe inside (c ∷ s) = elim (Bool-cases (is_safe c)) [
  | inl safe ↦ rw safe (safe, dash_unsafe-AllSafe false s)
  | inr other ↦ ground (arith, dash_unsafe-AllSafe true s)
]

squeeze-AllSafe : (inside : Bool) (s : Text) → AllSafe s → AllSafe (squeeze_dashes inside s)
unfolding squeeze_dashes
squeeze-AllSafe inside [] h = tt
squeeze-AllSafe inside (c ∷ s) h = ground (arith, squeeze-AllSafe (c == b'-') s h.1, h.0)

trim_start-AllSafe : (s : Text) → AllSafe s → AllSafe (trim_start s)
unfolding trim_start
trim_start-AllSafe [] h = tt
trim_start-AllSafe (c ∷ s) h = ground (arith, trim_start-AllSafe s h.1, h.0, h.1)

-- The first character is none of dash, dot and slash.
abbrev pub StartsClean : Text → Type 0
StartsClean [] = Unit
StartsClean (c ∷ s) = is_trimmed c ≡ false

-- The last character is none of dash, dot and slash.
abbrev pub EndsClean : Text → Type 0
EndsClean [] = Unit
EndsClean (c ∷ []) = is_trimmed c ≡ false
EndsClean (c ∷ d ∷ s) = EndsClean (d ∷ s)

trim_start-StartsClean : (s : Text) → StartsClean (trim_start s)
unfolding trim_start
trim_start-StartsClean [] = tt
trim_start-StartsClean (c ∷ s) = ground (arith, trim_start-StartsClean s)

keep_end-AllSafe : (c : ℕ) (s : Text) → is_safe c ≡ true → AllSafe s → AllSafe (keep_end c s)
keep_end-AllSafe c [] p h = ground arith
keep_end-AllSafe c (d ∷ s) p h = (p, h)

keep_end-EndsClean : (c : ℕ) (s : Text) → EndsClean s → EndsClean (keep_end c s)
keep_end-EndsClean c [] h = ground arith
keep_end-EndsClean c (d ∷ s) h = h

keep_end-StartsClean : (c : ℕ) (s : Text) → is_trimmed c ≡ false → StartsClean (keep_end c s)
keep_end-StartsClean c [] p = ground arith
keep_end-StartsClean c (d ∷ s) p = p

trim_end-AllSafe : (s : Text) → AllSafe s → AllSafe (trim_end s)
unfolding trim_end
trim_end-AllSafe [] h = tt
trim_end-AllSafe (c ∷ s) h = keep_end-AllSafe c (trim_end s) h.0 (trim_end-AllSafe s h.1)

trim_end-EndsClean : (s : Text) → EndsClean (trim_end s)
unfolding trim_end
trim_end-EndsClean [] = tt
trim_end-EndsClean (c ∷ s) = keep_end-EndsClean c (trim_end s) (trim_end-EndsClean s)

trim_end-StartsClean : (s : Text) → StartsClean s → StartsClean (trim_end s)
unfolding trim_end
trim_end-StartsClean [] h = tt
trim_end-StartsClean (c ∷ s) h = keep_end-StartsClean c (trim_end s) h

-- A text that can stand in a branch name or a path.
pub record IsClean (s : Text) : Type 0 where
  pub not_empty : s ≢ []
  pub all_safe : AllSafe s
  pub starts_clean : StartsClean s
  pub ends_clean : EndsClean s

or_unknown-IsClean : (s : Text) → AllSafe s → StartsClean s → EndsClean s → IsClean (or_unknown s)
or_unknown-IsClean [] a b e = ground arith
or_unknown-IsClean (c ∷ s) a b e = record {
  not_empty = λ h. cc;
  all_safe = a;
  starts_clean = b;
  ends_clean = e;
}

-- Whatever the reference of a ruling is, and if it has none, the cleaned one is not empty, holds
-- nothing but ASCII letters, digits, dots, underscores and dashes, and neither starts nor ends with
-- a dash, a dot or a slash.
pub sanitize_ref-IsClean : (ref : Option Text) → IsClean (sanitize_ref ref)
unfolding sanitize_ref
sanitize_ref-IsClean ref =
    let cleaned = squeeze_dashes false (dash_unsafe false (ref_text ref)) in
    or_unknown-IsClean (trim_end (trim_start cleaned))
      (trim_end-AllSafe _
        (trim_start-AllSafe _ (squeeze-AllSafe false _ (dash_unsafe-AllSafe false (ref_text ref)))))
      (trim_end-StartsClean _ (trim_start-StartsClean cleaned)) (trim_end-EndsClean _)
