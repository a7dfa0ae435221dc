-- ===== src/Drain/Refs.antt =====
-- `sanitize_ref` and `worktree_paths` of ihsanos_drain/runner.py
pub mod Safe
use wingmen_orchestrator.Prelude.{
  ℕ, Bool, true, false, ◌&&◌, ◌||◌, Option, none, some, List, [], ◌∷◌, ◌++◌, leb, ◌==◌, nat_eq,
  if◌then◌else◌,
}
use wingmen_orchestrator.Prelude.Texts.{Text, codes, is_digit}

-- [A-Za-z0-9._-]
abbrev pub is_safe : ℕ → Bool
is_safe c =
    leb b'A' c && leb c b'Z'
    || leb b'a' c && leb c b'z'
    || is_digit c
    || (c == b'.' || (c == b'_' || c == b'-'))

-- _UNSAFE_RUN_RE.sub("-", s): each run of other characters becomes one dash. `inside` says that the
-- character before was in the run.
unfoldable pub dash_unsafe : Bool → Text → Text
dash_unsafe inside [] = []
dash_unsafe inside (c ∷ s) =
    let rest = dash_unsafe (if is_safe c then false else true) s in
    if is_safe c then c ∷ rest else if inside then rest else b'-' ∷ rest

-- _DASH_RUN_RE.sub("-", s)
unfoldable pub squeeze_dashes : Bool → Text → Text
squeeze_dashes inside [] = []
squeeze_dashes inside (c ∷ s) =
    let rest = squeeze_dashes (c == b'-') s in if c == b'-' && inside then rest else c ∷ rest

-- the characters of .strip("-./")
abbrev pub is_trimmed : ℕ → Bool
is_trimmed c = c == b'-' || (c == b'.' || c == b'/')

unfoldable pub trim_start : Text → Text
trim_start [] = []
trim_start (c ∷ s) = let rest = trim_start s in if is_trimmed c then rest else c ∷ s

abbrev keep_end : ℕ → Text → Text
keep_end c [] = if is_trimmed c then [] else c ∷ []
keep_end c (d ∷ s) = c ∷ d ∷ s

unfoldable pub trim_end : Text → Text
trim_end [] = []
trim_end (c ∷ s) = keep_end c (trim_end s)

abbrev pub or_unknown : Text → Text
or_unknown [] = codes "unknown"
or_unknown (c ∷ s) = c ∷ s

abbrev ref_text : Option Text → Text
ref_text none = []
ref_text (some s) = s

unfoldable pub sanitize_ref : Option Text → Text
sanitize_ref ref =
    or_unknown (trim_end (trim_start (squeeze_dashes false (dash_unsafe false (ref_text ref)))))

unfoldable pub worktree_paths : Option Text → Text × Text
worktree_paths ref = (
  codes "/tmp/wingmen-wt-ihsanos-drain-" ++ sanitize_ref ref,
  codes "ihsanos-drain-" ++ sanitize_ref ref,
)
