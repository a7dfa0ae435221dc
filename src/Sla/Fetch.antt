-- ===== src/Sla/Fetch.antt =====
-- `fetch_actionable` of scripts/priority_sla_watchdog.py. The rows of its two queries are inputs.
use wingmen_orchestrator.Prelude.{
  ◌≡◌, ◌⊎◌, Bool, true, false, not, ◌&&◌, Option, none, some, List, [], ◌∷◌, ◌++◌, any, ◌==◌,
  nat_eq, is_empty, if◌then◌else◌,
}
use wingmen_orchestrator.Prelude.Texts.{Text, codes, text_eq}
use wingmen_orchestrator.Sla.{Violation, same_kind}

-- A row as the queries give it, with the sender if there is one.
pub record Row : Type 0 where
  pub violation : Violation
  pub from_agent : Option Text

abbrev pub is_self_note : Row → Bool
is_self_note r = elim r.from_agent [
  | none ↦ false
  | some a ↦ not (is_empty a) && text_eq a r.violation.agent
]

abbrev pub is_watchdog : Row → Bool
is_watchdog r = elim r.from_agent [ none ↦ false | some a ↦ text_eq a (codes "sla-watchdog") ]

abbrev pub is_kept : List Text → Row → Bool
is_kept excluded r = not (any (text_eq r.violation.agent) excluded) && not (is_watchdog r)

abbrev pub same_key : Row → Row → Bool
same_key r q =
    r.violation.message_id == q.violation.message_id && same_kind r.violation.kind q.violation.kind

-- seen[key] = r
unfoldable pub put : Row → List Row → List Row
put r [] = r ∷ []
put r (q ∷ qs) = let rest = q ∷ put r qs in if same_key q r then r ∷ qs else rest

unfoldable pub put_each : List Text → List Row → List Row → List Row
unfolding put
put_each excluded [] seen = seen
put_each excluded (r ∷ rs) seen =
    put_each excluded rs (if is_kept excluded r then put r seen else seen)

unfoldable pub without_self_notes : List Row → List Row
without_self_notes [] = []
without_self_notes (r ∷ rs) =
    let rest = without_self_notes rs in if is_self_note r then rest else r ∷ rest

-- The rows of the view, then those of the P0 query, which are not asked for self-notes.
unfoldable pub fetch_actionable : List Text → List Row → List Row → List Row
unfolding put_each without_self_notes
fetch_actionable excluded view p0_rows = put_each excluded (without_self_notes view ++ p0_rows) []

abbrev pub Has : Row → List Row → Type 0
Has r [] = ⊥
Has r (q ∷ qs) = (q ≡ r) ⊎ Has r qs

abbrev pub has_key : Row → List Row → Bool
has_key r qs = any (λ q. same_key q r) qs

-- What the queries give and the filters let through: no self-note but from the P0 query.
abbrev pub IsActionable : List Text → List Row → Row → Type 0
IsActionable excluded p0_rows r =
    (is_kept excluded r ≡ true) × ((is_self_note r ≡ false) ⊎ Has r p0_rows)

abbrev IsFetched : List Row → Row → Type 0
IsFetched p0_rows r = (is_self_note r ≡ false) ⊎ Has r p0_rows

-- Each of the rows that is kept has its key among those that are acted on.
abbrev pub Covers : List Text → List Row → Row → Type 0
Covers excluded acted r = (is_kept excluded r ≡ false) ⊎ (has_key r acted ≡ true)
