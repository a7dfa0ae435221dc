-- ===== src/SqlLint/Statements.antt =====
-- `_split_statements` of scripts/check_additive_migration.py. The loop walks the text: `cur` is the slice
-- from `stmt_start` on, and `skip` is set where the index goes up by two.
pub mod Join
use wingmen_orchestrator.Prelude.{
  ℕ, zero, suc, ◌+◌, Bool, true, false, not, ◌&&◌, Option, none, some, List, [], ◌∷◌, ◌++◌, length,
  is_empty, ◌==◌, nat_eq, if◌then◌else◌,
}
use wingmen_orchestrator.Prelude.Texts.{Text, strip}

abbrev pub quote : ℕ
quote = 39

abbrev pub semicolon : ℕ
semicolon = 59

-- The branches of the loop: on in the statement, or the end of it.
pub data Move : Type 0 where
  more : (in_string skip : Bool) → Move
  close : Move

abbrev pub next_is_quote : Text → Bool
next_is_quote [] = false
next_is_quote (d ∷ s) = d == quote

unfoldable pub move : Bool → ℕ → Text → Move
move in_string c s =
    if c == quote && not in_string
    then more true false
    else if c == quote && in_string
    then (if next_is_quote s then more true true else more false false)
    else if c == semicolon && not in_string
    then close
    else more in_string false

abbrev pub tail_of : ℕ → Text → List (ℕ × Text)
tail_of stmt_start cur = if is_empty (strip cur) then [] else (stmt_start, cur) ∷ []

abbrev pub next_move : Bool → Bool → ℕ → Text → Move
next_move in_string skip c s = if skip then more in_string false else move in_string c s

unfoldable pub split_from : ℕ → Text → Bool → Bool → Text → List (ℕ × Text)
unfolding move
split_from stmt_start cur in_string skip [] = tail_of stmt_start cur
split_from stmt_start cur in_string skip (c ∷ s) = elim (next_move in_string skip c s) [
  | more q k ↦ split_from stmt_start (cur ++ (c ∷ [])) q k s
  | close ↦
      (stmt_start, cur ++ (c ∷ []))
      ∷ split_from (stmt_start + length (cur ++ (c ∷ []))) [] false false s
]

unfoldable pub split_statements : Text → List (ℕ × Text)
unfolding split_from
split_statements sql = split_from 0 [] false false sql
