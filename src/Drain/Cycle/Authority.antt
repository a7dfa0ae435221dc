-- ===== src/Drain/Cycle/Authority.antt =====
-- Which rulings a cycle executes.
use mathlib.Core.Path.{subst}
use wingmen_orchestrator.Prelude.{
  ℕ, ◌≡◌, sym, ◌∙◌, inl, inr, refl, Bool, true, false, Option, none, some, List, [], ◌∷◌, ◌++◌, All,
  any, is_empty, arith, Bool-cases, if◌then◌else◌,
}
use wingmen_orchestrator.Prelude.Texts.{Text, text_eq, text_eq_self, is_truthy}
use wingmen_orchestrator.Drain.Grant.{Ruling, is_executable, summarize}
use wingmen_orchestrator.Drain.Cycle.{
  Env, Effect, execute_row, insert_report, poll_inbox, query_candidates, same_ref, selected,
  effects_of, run_cycle,
}

-- The rows that the cycle hands to the executor, in their order.
abbrev pub executed_of : List Effect → List Ruling
executed_of [] = []
executed_of (execute_row row ∷ es) = row ∷ executed_of es
executed_of (_ ∷ es) = executed_of es

executed_of-effects_of :
    (rows : List Ruling) (b : Bool) → executed_of (effects_of rows ++ insert_report b ∷ []) ≡ rows
executed_of-effects_of [] b = refl
executed_of-effects_of (row ∷ rows) b = rw (executed_of-effects_of rows b)

-- The kill switch stops the cycle before it touches anything.
pub disabled_cycle :
    (env : Env) (polled : ℕ) (rows : List Ruling)
    → is_truthy env.drain_disabled ≡ true
    → (run_cycle env polled rows).1 ≡ []
unfolding run_cycle
disabled_cycle env polled rows h = ground arith

-- Without the execute flag the cycle executes nothing: it reads, and inserts one report that is
-- marked report-only.
pub report_only_cycle :
    (env : Env) (polled : ℕ) (rows : List Ruling)
    → is_truthy env.drain_disabled ≡ false
    → is_truthy env.execute_enabled ≡ false
    → (run_cycle env polled rows).1 ≡ poll_inbox ∷ query_candidates ∷ insert_report true ∷ []
unfolding run_cycle
report_only_cycle env polled rows h k = ground arith

-- The rows that `evaluate_grant` grants.
unfoldable pub granted_rows : List Ruling → List Ruling
granted_rows [] = []
granted_rows (row ∷ rows) =
    let rest = granted_rows rows in if is_executable row then row ∷ rest else rest

-- No two rows have the same reference.
abbrev pub DistinctRefs : List Ruling → Type 0
DistinctRefs [] = Unit
DistinctRefs (row ∷ rows) =
    All (λ r. same_ref row.decision_ref r.decision_ref ≡ false) rows × DistinctRefs rows

text_eq_comm : (s t : Text) → text_eq s t ≡ text_eq t s
text_eq_comm [] [] = refl
text_eq_comm [] (d ∷ t) = refl
text_eq_comm (c ∷ s) [] = refl
text_eq_comm (c ∷ s) (d ∷ t) = ground (arith, text_eq_comm s t)

same_ref_comm : (a b : Option Text) → same_ref a b ≡ same_ref b a
same_ref_comm none none = refl
same_ref_comm none (some b) = refl
same_ref_comm (some a) none = refl
same_ref_comm (some a) (some b) = text_eq_comm a b

same_ref_self : (a : Option Text) → same_ref a a ≡ true
same_ref_self none = refl
same_ref_self (some a) = text_eq_self a

abbrev among : List (Option Text) → Ruling → Bool
among refs row = any (λ r. same_ref row.decision_ref r) refs

-- A reference that no row has is not executable.
fresh_ref :
    (row : Ruling) (rows : List Ruling)
    → All (λ r. same_ref row.decision_ref r.decision_ref ≡ false) rows
    → among (summarize rows).executable row ≡ false
unfolding summarize
fresh_ref row [] h = refl
fresh_ref row (r ∷ rows) h = ground (arith, h.0, fresh_ref row rows h.1)

-- Among the executable references stand those of the granted rows and of no others.
abbrev Agrees : List (Option Text) → Ruling → Type 0
Agrees refs row = among refs row ≡ is_executable row

more_refs :
    (row : Ruling) (rows : List Ruling) (refs : List (Option Text))
    → All (λ r. same_ref row.decision_ref r.decision_ref ≡ false) rows
    → All (Agrees refs) rows
    → All (Agrees (row.decision_ref ∷ refs)) rows
more_refs row [] refs h a = tt
more_refs row (r ∷ rows) refs h a = (
  ground (arith, h.0, a.0, same_ref_comm row.decision_ref r.decision_ref),
  more_refs row rows refs h.1 a.1,
)

executable-granted :
    (row : Ruling) (rows : List Ruling)
    → is_executable row ≡ true
    → (summarize (row ∷ rows)).executable ≡ row.decision_ref ∷ (summarize rows).executable
unfolding summarize
executable-granted row rows g = ground arith

executable-held :
    (row : Ruling) (rows : List Ruling)
    → is_executable row ≡ false
    → (summarize (row ∷ rows)).executable ≡ (summarize rows).executable
unfolding summarize
executable-held row rows g = ground arith

agrees : (rows : List Ruling) → DistinctRefs rows → All (Agrees (summarize rows).executable) rows
agrees [] h = tt
agrees (row ∷ rows) h = elim (Bool-cases (is_executable row)) [
  | inl grants ↦
      subst (λ refs. All (Agrees refs) (row ∷ rows)) (sym (executable-granted row rows grants))
        (
          ground (arith, same_ref_self row.decision_ref),
          more_refs row rows (summarize rows).executable h.0 (agrees rows h.1),
        )
  | inr held ↦
      subst (λ refs. All (Agrees refs) (row ∷ rows)) (sym (executable-held row rows held))
        (ground (arith, fresh_ref row rows h.0), agrees rows h.1)
]

selected_granted :
    (rows : List Ruling) (refs : List (Option Text))
    → All (Agrees refs) rows
    → selected rows refs ≡ granted_rows rows
unfolding selected granted_rows
selected_granted [] refs a = refl
selected_granted (row ∷ rows) refs a = ground (arith, a.0, selected_granted rows refs a.1)

none_granted : (rows : List Ruling) → (summarize rows).executable ≡ [] → granted_rows rows ≡ []
unfolding summarize granted_rows
none_granted [] h = refl
none_granted (row ∷ rows) h = ground (arith, none_granted rows)

-- With the drain not disabled, execution enabled, and no two candidate rows with one reference, the
-- cycle executes exactly the rows that the grant predicate grants, each once and in their order.
pub cycle_executes_granted :
    (env : Env) (polled : ℕ) (rows : List Ruling)
    → is_truthy env.drain_disabled ≡ false
    → is_truthy env.execute_enabled ≡ true
    → DistinctRefs rows
    → executed_of (run_cycle env polled rows).1 ≡ granted_rows rows
unfolding run_cycle
cycle_executes_granted env polled rows h k d =
    rw (h, k)
      (elim (Bool-cases (is_empty (summarize rows).executable)) [
        | inl nothing ↦ rw nothing (sym (none_granted rows (ground arith)))
        | inr some_ ↦ rw some_ (
            executed_of-effects_of (selected rows (summarize rows).executable) false
            ∙ selected_granted rows (summarize rows).executable (agrees rows d))
      ])

-- With the drain not disabled and execution enabled, where the candidates are a granted ruling and
-- then one that is held with the same reference, the cycle executes both, if the executor raises nothing.
pub cycle_executes_held :
    (env : Env) (polled : ℕ) (a b : Ruling)
    → is_truthy env.drain_disabled ≡ false
    → is_truthy env.execute_enabled ≡ true
    → is_executable a ≡ true
    → is_executable b ≡ false
    → b.decision_ref ≡ a.decision_ref
    → executed_of (run_cycle env polled (a ∷ b ∷ [])).1 ≡ a ∷ b ∷ []
unfolding run_cycle summarize selected
cycle_executes_held env polled a b h k ga gb e = ground (arith, same_ref_self a.decision_ref)
