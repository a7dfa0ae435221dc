-- ===== src/Drain/Grant.antt =====
-- ihsanos_drain/grant.py, granted_work.py and token_budget.py
pub mod Conditions
use wingmen_orchestrator.Prelude.{
  ℕ, ◌≡◌, ◌≢◌, ◌↔◌, ◌⊎◌, inl, inr, refl, String, Bool, true, false, not, ◌&&◌, ◌||◌, Option, none,
  some, List, [], ◌∷◌, any, is_empty, ltb, ◌==◌, string_eq, Bool-cases, Option-cases, arith, eq_iff,
  if◌then◌else◌,
}
use wingmen_orchestrator.Prelude.Texts.{Text, contains}

-- A row of strategic_decisions, as `candidate_query` selects it.
pub record Ruling : Type 0 where
  pub decision_ref : Option Text
  pub execution_status : Option String
  pub repos_affected : List String
  pub challenge_status : Option String
  pub decision : Text

pub data Status : Type 0 where
  granted report_only refused_migration : Status

pub data Reason : Type 0 where
  not_granted not_named_executor window_not_closed migration_not_named all_satisfied : Reason

pub record Verdict : Type 0 where
  pub status : Status
  pub reason : Reason

abbrev verdict : Status → Reason → Verdict
verdict s r = record { status = s; reason = r }

-- v == s, for a column
abbrev pub is_text : Option String → String → Bool
is_text none s = false
is_text (some v) s = v == s

abbrev pub is_closed : Option String → Bool
is_closed none = false
is_closed (some v) = v == "accepted" || v == "accepted_by_timeout" || v == "unchallenged"

-- not migration_filename or migration_filename not in decision_text
abbrev pub is_unnamed : Option Text → Text → Bool
is_unnamed none decision = true
is_unnamed (some file) decision = is_empty file || not (contains decision file)

unfoldable pub evaluate_grant : Ruling → Bool → Option Text → Verdict
evaluate_grant row is_migration migration_filename =
    if not (is_text row.execution_status "granted")
    then verdict report_only not_granted
    else if not (any (λ r. r == "ihsanos") row.repos_affected)
    then verdict report_only not_named_executor
    else if not (is_closed row.challenge_status)
    then verdict report_only window_not_closed
    else if is_migration && is_unnamed migration_filename row.decision
    then verdict refused_migration migration_not_named
    else verdict granted all_satisfied

abbrev is_granted : Status → Bool
is_granted granted = true
is_granted _ = false

pub record Summary : Type 0 where
  pub executable : List (Option Text)
  pub held : List (Option Text × Reason)

abbrev pub is_executable : Ruling → Bool
is_executable row = is_granted (evaluate_grant row false none).status

-- The loop of `summarize`, each list in the order of the rows.
unfoldable pub summarize : List Ruling → Summary
summarize [] = record { executable = []; held = [] }
summarize (row ∷ rows) =
    let rest = summarize rows in
    if is_executable row
    then record rest { executable = row.decision_ref ∷ rest.executable }
    else record rest {
      held = (row.decision_ref, (evaluate_grant row false none).reason) ∷ rest.held;
    }

-- within_budget
unfoldable pub within_budget : ℕ → Option ℕ → Bool
within_budget spent none = true
within_budget spent (some cap) = ltb spent cap
