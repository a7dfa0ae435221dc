-- ===== src/SafeMerge/Samples.antt =====
-- Decisions on sample pull requests.
use wingmen_orchestrator.Prelude.{◌≡◌, refl, ◌↔◌, true, false, List, [], ◌∷◌}
use wingmen_orchestrator.Prelude.Texts.{Text, codes}
use wingmen_orchestrator.SafeMerge.{
  absent, text, Entry, Check, object, Fetched, payload, checks, evaluate_checks, safe_merge,
  sort_checks, classify_check, classify_run,
}
use wingmen_orchestrator.SafeMerge.Decision.{Mergeable, safe_merge_runs_iff}

abbrev run_of : Text → Text → Entry
run_of name concl = record {
  typename = text (codes "CheckRun");
  name = text name;
  context = absent;
  status = text (codes "COMPLETED");
  conclusion = text concl;
  state = absent;
}

abbrev lint : Entry
lint = run_of (codes "lint") (codes "SUCCESS")

abbrev deploy : Entry
deploy = run_of (codes "deploy") (codes "SKIPPED")

abbrev open_with : List Check → Fetched
open_with cs = payload (text (codes "OPEN")) (checks cs)

skip_refused_test : (safe_merge [] (open_with (object lint ∷ object deploy ∷ [])) 0).1 ≡ false
unfolding safe_merge evaluate_checks sort_checks classify_check classify_run
skip_refused_test = refl

safe_merge_runs_iff_example :
    ((safe_merge (codes "deploy" ∷ []) (open_with (object lint ∷ object deploy ∷ [])) 0).1 ≡ true)
    ↔ Mergeable (codes "deploy" ∷ []) (open_with (object lint ∷ object deploy ∷ []))
safe_merge_runs_iff_example =
    safe_merge_runs_iff (codes "deploy" ∷ []) (open_with (object lint ∷ object deploy ∷ [])) 0
