-- ===== src/Drain/Cycle.antt =====
-- `run_cycle` of ihsanos_drain/main.py, with the executor that it is handed. An exception of the executor
-- would end the cycle, and is left out. The effects are kept in their order; the report's text is left out.
pub mod Authority
use wingmen_orchestrator.Prelude.{
  ℕ, Bool, true, false, ◌&&◌, Option, none, some, List, [], ◌∷◌, ◌++◌, any, is_empty, length,
  if◌then◌else◌,
}
use wingmen_orchestrator.Prelude.Texts.{Text, text_eq, is_truthy}
use wingmen_orchestrator.Drain.Grant.{Ruling, Reason, summarize}

pub data Mode : Type 0 where
  disabled execute report_only : Mode

pub data Effect : Type 0 where
  poll_inbox query_candidates : Effect
  execute_row : Ruling → Effect
  insert_report : Bool → Effect

-- The two variables that the cycle reads: WINGMEN_IHSANOS_DRAIN_DISABLED, DRAIN_EXECUTE_ENABLED.
pub record Env : Type 0 where
  pub drain_disabled : Option Text
  pub execute_enabled : Option Text

pub record Result : Type 0 where
  pub mode : Mode
  pub executed : ℕ
  pub polled : ℕ
  pub executable : List (Option Text)
  pub held : List (Option Text)

abbrev pub same_ref : Option Text → Option Text → Bool
same_ref none none = true
same_ref (some a) (some b) = text_eq a b
same_ref _ _ = false

-- The rows whose reference is in `exec_set`.
unfoldable pub selected : List Ruling → List (Option Text) → List Ruling
selected [] refs = []
selected (row ∷ rows) refs =
    let rest = selected rows refs in
    if any (λ r. same_ref row.decision_ref r) refs then row ∷ rest else rest

abbrev pub refs_of : List (Option Text × Reason) → List (Option Text)
refs_of [] = []
refs_of ((ref, reason) ∷ held) = ref ∷ refs_of held

abbrev pub effects_of : List Ruling → List Effect
effects_of [] = []
effects_of (row ∷ rows) = execute_row row ∷ effects_of rows

abbrev pub executed_rows : Bool → List Ruling → List (Option Text) → List Ruling
executed_rows enabled rows executable =
    if enabled && (if is_empty executable then false else true)
    then selected rows executable
    else []

unfoldable pub run_cycle : Env → ℕ → List Ruling → Result × List Effect
unfolding is_truthy
run_cycle env polled rows =
    if is_truthy env.drain_disabled
    then (record { mode = disabled; executed = 0; polled = 0; executable = []; held = [] }, [])
    else let s = summarize rows in
      let enabled = is_truthy env.execute_enabled in
      let rows' = executed_rows enabled rows s.executable in
      (
        record {
          mode = if enabled then execute else report_only;
          executed = length rows';
          polled = polled;
          executable = s.executable;
          held = refs_of s.held;
        },
        poll_inbox
            ∷ query_candidates
            ∷ (effects_of rows' ++ insert_report (if enabled then false else true) ∷ []),
      )
