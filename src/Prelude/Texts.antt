-- ===== src/Prelude/Texts.antt =====
-- Texts that the program walks: lists of code points. Case is that of ASCII.
use Prim.Native.Nat.{ℕ, ◌+◌, ◌-◌}
use Prim.Native.Char.{code}
use Prim.Native.String.{String}
use mathlib.Core.Path.{◌≡◌, refl}
use native.Mathlib.Omega.{arith}
use mathlib.Core.Bool.{Bool, true, false, ◌&&◌, ◌||◌}
use mathlib.Core.Option.{Option, none, some}
use mathlib.Core.List.{List, [], ◌∷◌}
use wingmen_orchestrator.Prelude.Tests.{leb, ◌==◌, nat_eq, if◌then◌else◌}

abbrev pub Text : Type 0
Text = List ℕ

-- The code points of a literal. `String` has its own `[]` and `∷`.
abbrev pub codes : String → Text
codes String.[] = []
codes (String.◌∷◌ c s) = code c ∷ codes s

-- s.lower()
abbrev pub lower_code : ℕ → ℕ
lower_code c = if leb b'A' c && leb c b'Z' then c + 32 else c

abbrev pub lower : Text → Text
lower [] = []
lower (c ∷ s) = lower_code c ∷ lower s

-- s.startswith(p)
abbrev pub starts_with : Text → Text → Bool
starts_with s [] = true
starts_with [] (c ∷ p) = false
starts_with (d ∷ s) (c ∷ p) = c == d && starts_with s p

-- p in s
unfoldable pub contains : Text → Text → Bool
contains [] p = starts_with [] p
contains (d ∷ s) p = starts_with (d ∷ s) p || contains s p

abbrev pub is_space : ℕ → Bool
is_space c = c == 32 || leb 9 c && leb c 13 || leb 28 c && leb c 31

abbrev pub is_digit : ℕ → Bool
is_digit c = leb b'0' c && leb c b'9'

-- s.lstrip()
abbrev pub lstrip : Text → Text
lstrip [] = []
lstrip (c ∷ s) = let rest = lstrip s in if is_space c then rest else c ∷ s

-- `.*q` searched from a position: `.` does not match a newline
unfoldable pub gap_then : Text → Text → Bool
gap_then [] q = starts_with [] q
gap_then (d ∷ s) q =
    let rest = gap_then s q in starts_with (d ∷ s) q || (if d == 10 then false else rest)

-- The text behind a prefix of the length of `p`.
abbrev pub behind : Text → Text → Text
behind s [] = s
behind [] (c ∷ p) = []
behind (d ∷ s) (c ∷ p) = behind s p

-- re.search(r"p.*q", s)
unfoldable pub contains_gap : Text → Text → Text → Bool
unfolding gap_then
contains_gap [] p q = starts_with [] p && gap_then [] q
contains_gap (d ∷ s) p q =
    starts_with (d ∷ s) p && gap_then (behind (d ∷ s) p) q || contains_gap s p q

abbrev pub text_eq : Text → Text → Bool
text_eq [] [] = true
text_eq (c ∷ s) (d ∷ t) = c == d && text_eq s t
text_eq _ _ = false

abbrev keep_unless_blank : ℕ → Text → Text
keep_unless_blank c [] = if is_space c then [] else c ∷ []
keep_unless_blank c (d ∷ s) = c ∷ d ∷ s

-- s.rstrip()
abbrev pub rstrip : Text → Text
rstrip [] = []
rstrip (c ∷ s) = keep_unless_blank c (rstrip s)

-- s.strip()
abbrev pub strip : Text → Text
strip s = rstrip (lstrip s)

-- (v or "").strip().lower() in ("1", "true", "yes", "on"), for an environment variable
unfoldable pub is_truthy : Option Text → Bool
is_truthy none = false
is_truthy (some v) =
    let t = lower (strip v) in
    text_eq t (codes "1")
    || text_eq t (codes "true")
    || text_eq t (codes "yes")
    || text_eq t (codes "on")

-- s.upper()
abbrev pub upper_code : ℕ → ℕ
upper_code c = if leb b'a' c && leb c b'z' then c - 32 else c

abbrev pub upper : Text → Text
upper [] = []
upper (c ∷ s) = upper_code c ∷ upper s

pub text_eq_lem : (s t : Text) → text_eq s t ≡ true → s ≡ t
text_eq_lem [] [] h = refl
text_eq_lem [] (d ∷ t) h = cc
text_eq_lem (c ∷ s) [] h = cc
text_eq_lem (c ∷ s) (d ∷ t) h = ground (arith, text_eq_lem s t)

pub text_eq_self : (s : Text) → text_eq s s ≡ true
text_eq_self [] = refl
text_eq_self (c ∷ s) = ground (arith, text_eq_self s)
