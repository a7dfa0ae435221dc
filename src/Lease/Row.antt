-- ===== src/Lease/Row.antt =====
-- The columns of a lease row, as both `_fetch` functions return them.
use Prim.Native.String.{◌++◌}
use wingmen_orchestrator.Prelude.{
  ℕ, ◌+◌, String, Bool, Option, none, some, ltb, ◌==◌, string_eq, if◌then◌else◌,
}

pub record Lease : Type 0 where
  pub holder : Option String
  pub holder_host : Option String
  pub acquired_at : ℕ
  pub renewed_at : ℕ
  pub ttl_seconds : ℕ
  pub taken_over_from : Option String
  pub takeover_reason : Option String

-- An f-string prints a missing value as None.
abbrev pub shown : Option String → String
shown none = "None"
shown (some s) = s

-- `v or d`: a missing value and the empty text are both false.
abbrev pub or_else : Option String → String → String
or_else none d = d
or_else (some s) d = if s == "" then d else s

-- COALESCE(v, d)
abbrev pub coalesce : Option String → String → String
coalesce none d = d
coalesce (some s) d = s

-- a || b: a NULL makes the whole NULL
abbrev pub sql_concat : Option String → String → Option String
sql_concat none b = none
sql_concat (some a) b = some (a ++ b)

abbrev pub at_host : String → String → String
at_host holder host = holder ++ ("@" ++ host)

-- now > renewed_at + timedelta(seconds=ttl_seconds)
unfoldable pub is_expired : ℕ → ℕ → ℕ → Bool
is_expired renewed_at ttl_seconds now = ltb (renewed_at + ttl_seconds) now
