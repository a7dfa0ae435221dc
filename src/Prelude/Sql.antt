-- ===== src/Prelude/Sql.antt =====
-- SQL's comparisons over nullable columns: `none` is NULL, and a condition may be unknown.
use Prim.Native.String.{String}
use mathlib.Core.Path.{◌≡◌, refl}
use text.Mathlib.TextEquality.{eq_iff}
use mathlib.Core.Bool.{Bool, true, false, not}
use mathlib.Core.Option.{Option, none, some}
use wingmen_orchestrator.Prelude.Tests.{◌==◌, string_eq}

-- a = b
abbrev pub sql_eq : Option String → Option String → Option Bool
sql_eq (some a) (some b) = some (a == b)
sql_eq _ _ = none

-- a IS NOT DISTINCT FROM b
abbrev pub not_distinct : Option String → Option String → Bool
not_distinct none none = true
not_distinct (some a) (some b) = a == b
not_distinct _ _ = false

-- a <> b
abbrev pub sql_not : Option Bool → Option Bool
sql_not none = none
sql_not (some b) = some (not b)

-- a OR b
abbrev pub sql_or : Option Bool → Option Bool → Option Bool
sql_or (some true) _ = some true
sql_or _ (some true) = some true
sql_or (some false) b = b
sql_or none _ = none

-- a AND b
abbrev pub sql_and : Option Bool → Option Bool → Option Bool
sql_and (some false) _ = some false
sql_and _ (some false) = some false
sql_and (some true) b = b
sql_and none _ = none

-- a IS NULL
abbrev pub is_null : Option String → Option Bool
is_null none = some true
is_null (some a) = some false

-- WHERE and CASE WHEN take a row only where the condition is true.
abbrev pub holds : Option Bool → Bool
holds (some true) = true
holds _ = false

pub not_distinct_self : (o : Option String) → not_distinct o o ≡ true
not_distinct_self none = refl
not_distinct_self (some a) = (eq_iff a a).1 refl
