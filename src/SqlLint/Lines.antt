-- ===== src/SqlLint/Lines.antt =====
-- `line_starts` and `lineno` of scripts/check_additive_migration.py, on the lines that splitlines gives
-- with their ends. The search has fuel, `none` where it runs out.
pub mod Numbers
use Prim.Native.Nat.{◌/◌}
use wingmen_orchestrator.Prelude.{
  ℕ, zero, suc, ◌+◌, ◌-◌, Bool, true, false, Option, none, some, List, [], ◌∷◌, length, ltb, leb,
  if◌then◌else◌,
}
use wingmen_orchestrator.Prelude.Texts.{Text}

unfoldable pub line_starts : ℕ → List Text → List ℕ
line_starts pos [] = []
line_starts pos (line ∷ lines) = pos ∷ line_starts (pos + length line) lines

-- line_starts[i], for an index in range
abbrev pub at : List ℕ → ℕ → ℕ
at [] i = 0
at (x ∷ xs) zero = x
at (x ∷ xs) (suc i) = at xs i

abbrev pub middle : ℕ → ℕ → ℕ
middle lo hi = (lo + hi + 1) / 2

abbrev pub or_stop : Bool → Option ℕ → ℕ → Option ℕ
or_stop goes_on rest lo = if goes_on then rest else some lo

unfoldable pub search : ℕ → List ℕ → ℕ → ℕ → ℕ → Option ℕ
search zero starts char_pos lo hi = or_stop (ltb lo hi) none lo
search (suc fuel) starts char_pos lo hi =
    let mid = middle lo hi in
    let before = leb (at starts mid) char_pos in
    let rest =
      search fuel starts char_pos (if before then mid else lo) (if before then hi else mid - 1) in
    or_stop (ltb lo hi) rest lo

abbrev pub next_of : Option ℕ → Option ℕ
next_of none = none
next_of (some lo) = some (lo + 1)

unfoldable pub lineno : List ℕ → ℕ → Option ℕ
unfolding search
lineno starts char_pos = next_of (search (length starts) starts char_pos 0 (length starts - 1))
