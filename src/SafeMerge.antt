-- ===== src/SafeMerge.antt =====
-- scripts/lib/safe_merge.py: a pull request is merged only if every check has succeeded. The texts
-- of labels and reasons are kept as the values that they print.
pub mod Decision
pub mod Skips
mod Samples
use wingmen_orchestrator.Prelude.{
  ℕ, Bool, true, false, not, ◌&&◌, ◌||◌, Option, none, some, List, [], ◌∷◌, any, is_empty, length,
  ◌==◌, nat_eq, if◌then◌else◌,
}
use wingmen_orchestrator.Prelude.Texts.{Text, codes, upper, text_eq}

-- What a key of a JSON object holds: nothing, null, or a text.
pub data Field : Type 0 where
  absent null : Field
  text : Text → Field

abbrev pub is_present : Field → Bool
is_present absent = false
is_present _ = true

-- check.get(k) or ""
abbrev pub get : Field → Text
get (text s) = s
get _ = []

-- An entry of statusCheckRollup.
pub record Entry : Type 0 where
  pub typename : Field
  pub name : Field
  pub context : Field
  pub status : Field
  pub conclusion : Field
  pub state : Field

pub data Check : Type 0 where
  not_object : Check
  object : Entry → Check

pub data Verdict : Type 0 where
  pass pending fail permitted_skip : Verdict

pub data Label : Type 0 where
  unrecognised_check : Label
  not_completed success skip_permitted skip_refused non_success : Text → Text → Label
  unrecognised_shape : Text → Text → Label

-- a or b
abbrev pub text_or : Text → Text → Text
text_or [] b = b
text_or (c ∷ s) b = c ∷ s

abbrev pub shown_name : Entry → Text
shown_name e = text_or (get e.name) (text_or (get e.context) (codes "<unnamed>"))

abbrev pub named : Text → List Text → Bool
named n allow = any (λ a. text_eq n a) allow

abbrev pub is_check_run : Entry → Bool
is_check_run e =
    text_eq (get e.typename) (codes "CheckRun") || is_present e.status && is_present e.conclusion

abbrev pub is_status_context : Entry → Bool
is_status_context e = text_eq (get e.typename) (codes "StatusContext") || is_present e.state

-- The branch for a check-run. Its last two returns differ in the label's text only.
unfoldable pub classify_run : List Text → Text → Text → Text → Verdict × Label
classify_run allow name status concl =
    if not (text_eq status (codes "COMPLETED"))
    then (pending, not_completed name status)
    else if text_eq concl (codes "SUCCESS")
    then (pass, success name concl)
    else if text_eq concl (codes "SKIPPED")
    then (if named name allow
        then (permitted_skip, skip_permitted name concl)
        else (fail, skip_refused name concl))
    else (fail, non_success name concl)

-- The branch for a commit status.
unfoldable pub classify_status : Text → Text → Verdict × Label
classify_status name state =
    if text_eq state (codes "SUCCESS")
    then (pass, success name state)
    else if text_eq state (codes "PENDING") || text_eq state (codes "EXPECTED")
    then (pending, not_completed name state)
    else (fail, non_success name state)

unfoldable pub classify_check : List Text → Check → Verdict × Label
classify_check allow not_object = (fail, unrecognised_check)
classify_check allow (object e) =
    if is_check_run e
    then classify_run allow (shown_name e) (upper (get e.status)) (upper (get e.conclusion))
    else if is_status_context e
    then classify_status (shown_name e) (upper (get e.state))
    else (fail, unrecognised_shape (shown_name e) (get e.typename))

pub data Reason : Type 0 where
  not_a_list zero_checks not_enumerable bad_payload not_open merge_failed : Reason
  not_all_succeeded all_succeeded merged : Reason

pub record MergeDecision : Type 0 where
  pub ok : Bool
  pub reason : Reason
  pub passed : List Label
  pub waiting : List Label
  pub failed : List Label
  pub permitted_skips : List Label

abbrev refuse : Reason → MergeDecision
refuse r = record {
  ok = false;
  reason = r;
  passed = [];
  waiting = [];
  failed = [];
  permitted_skips = [];
}

-- The four lists of the loop, each in the order of the checks.
pub record Piles : Type 0 where
  pub passed : List Label
  pub waiting : List Label
  pub failed : List Label
  pub permitted : List Label

abbrev put : Verdict × Label → Piles → Piles
put (pass, l) p = record p { passed = l ∷ p.passed }
put (pending, l) p = record p { waiting = l ∷ p.waiting }
put (fail, l) p = record p { failed = l ∷ p.failed }
put (permitted_skip, l) p = record p { permitted = l ∷ p.permitted }

unfoldable pub sort_checks : List Text → List Check → Piles
sort_checks allow [] = record { passed = []; waiting = []; failed = []; permitted = [] }
sort_checks allow (c ∷ cs) = put (classify_check allow c) (sort_checks allow cs)

abbrev decide : Piles → MergeDecision
decide p =
    if not (is_empty p.waiting) || not (is_empty p.failed)
    then record {
      ok = false;
      reason = not_all_succeeded;
      passed = p.passed;
      waiting = p.waiting;
      failed = p.failed;
      permitted_skips = p.permitted;
    }
    else record {
      ok = true;
      reason = all_succeeded;
      passed = p.passed;
      waiting = [];
      failed = [];
      permitted_skips = p.permitted;
    }

-- The rollup, or something that is no list.
pub data Rollup : Type 0 where
  not_list : Rollup
  checks : List Check → Rollup

unfoldable pub evaluate_checks : List Text → Rollup → MergeDecision
evaluate_checks allow not_list = refuse not_a_list
evaluate_checks allow (checks []) = refuse zero_checks
evaluate_checks allow (checks (c ∷ cs)) = decide (sort_checks allow (c ∷ cs))

-- What the injected `fetch` gives: it raises, returns no object, or returns the two fields.
pub data Fetched : Type 0 where
  raised not_dict : Fetched
  payload : Field → Rollup → Fetched

-- The decision, and whether the merge command was run. `do_merge` gives the command's exit status.
abbrev after_merge : MergeDecision → ℕ → MergeDecision
after_merge d rc =
    if rc == 0
    then record d { reason = merged; waiting = []; failed = [] }
    else record d { ok = false; reason = merge_failed; waiting = []; failed = [] }

unfoldable pub safe_merge : List Text → Fetched → ℕ → MergeDecision × Bool
safe_merge allow raised rc = (refuse not_enumerable, false)
safe_merge allow not_dict rc = (refuse bad_payload, false)
safe_merge allow (payload state rollup) rc =
    let d = evaluate_checks allow rollup in
    if not (text_eq (upper (get state)) (codes "OPEN"))
    then (refuse not_open, false)
    else if not d.ok
    then (d, false)
    else (after_merge d rc, true)
