-- ===== src/Outbox/Chunks.antt =====
-- `chunk_text` of nervous_system/tg_out.py. The loop has fuel, `none` where it runs out; the test
-- `cut < limit * 0.9` is in tenths.
pub mod Split
use wingmen_orchestrator.Prelude.{
  ℕ, zero, suc, ◌+◌, ◌*◌, Bool, true, false, ◌||◌, Option, none, some, List, [], ◌∷◌, length, take,
  drop, ltb, leb, ◌==◌, nat_eq, if◌then◌else◌,
}
use wingmen_orchestrator.Prelude.Texts.{Text}

-- The characters of lstrip("\n ").
abbrev pub is_break : ℕ → Bool
is_break c = c == 10 || c == 32

abbrev or_else_break : ℕ → Option ℕ → Option ℕ
or_else_break c none = if is_break c then some 0 else none
or_else_break c (some i) = some (suc i)

-- max(window.rfind("\n"), window.rfind(" ")), `none` for -1
unfoldable pub last_break : Text → Option ℕ
last_break [] = none
last_break (c ∷ s) = or_else_break c (last_break s)

abbrev cut_or : ℕ → Option ℕ → ℕ
cut_or limit none = limit
cut_or limit (some i) = if ltb (10 * i) (9 * limit) then limit else i

unfoldable pub cut_at : ℕ → Text → ℕ
cut_at limit window = cut_or limit (last_break window)

unfoldable pub lstrip_breaks : Text → Text
lstrip_breaks [] = []
lstrip_breaks (c ∷ s) = let rest = lstrip_breaks s in if is_break c then rest else c ∷ s

abbrev pub prepend : Text → Option (List Text) → Option (List Text)
prepend p none = none
prepend p (some ps) = some (p ∷ ps)

unfoldable pub chunk_loop : ℕ → ℕ → Text → Option (List Text)
chunk_loop fuel limit [] = some []
chunk_loop zero limit (c ∷ s) = none
chunk_loop (suc fuel) limit (c ∷ s) =
    let cut = cut_at limit (take limit (c ∷ s)) in
    let rest =
      prepend (take cut (c ∷ s)) (chunk_loop fuel limit (lstrip_breaks (drop cut (c ∷ s)))) in
    if leb (length (c ∷ s)) limit then some ((c ∷ s) ∷ []) else rest

-- The fuel is a round for each character.
unfoldable pub chunk_text : ℕ → Text → Option (List Text)
chunk_text limit text = chunk_loop (length text) limit text
