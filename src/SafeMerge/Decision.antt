-- ===== src/SafeMerge/Decision.antt =====
-- When the merge command is run.
use wingmen_orchestrator.Prelude.{
  ℕ, ◌≡◌, refl, ◌↔◌, inl, inr, true, false, List, [], ◌∷◌, All, Bool-cases, arith, is_empty,
}
use wingmen_orchestrator.Prelude.Texts.{Text, codes, upper, text_eq, text_eq_lem}
use wingmen_orchestrator.SafeMerge.{
  Field, get, Entry, Check, object, not_object, shown_name, named, is_check_run, is_status_context,
  classify_run, classify_status, classify_check, sort_checks, checks, not_list, evaluate_checks,
  Fetched, raised, not_dict, payload, safe_merge,
}

-- The field's text is `s`, in any case.
abbrev pub Says : Field → Text → Type 0
Says f s = text_eq (upper (get f)) s ≡ true

-- A check that has completed with success, or has been skipped under a name that is allowed.
pub data Succeeded (allow : List Text) : Check → Type 0 where
  run_succeeded :
      (e : Entry)
      → is_check_run e ≡ true
      → Says e.status (codes "COMPLETED")
      → Says e.conclusion (codes "SUCCESS")
      → Succeeded allow (object e)
  skip_allowed :
      (e : Entry)
      → is_check_run e ≡ true
      → Says e.status (codes "COMPLETED")
      → Says e.conclusion (codes "SKIPPED")
      → named (shown_name e) allow ≡ true
      → Succeeded allow (object e)
  status_succeeded :
      (e : Entry)
      → is_check_run e ≡ false
      → is_status_context e ≡ true
      → Says e.state (codes "SUCCESS")
      → Succeeded allow (object e)

-- The check goes to neither the waiting nor the failed pile.
abbrev Clears : List Text → Check → Type 0
Clears allow c =
    (is_empty (sort_checks allow (c ∷ [])).waiting ≡ true)
    × (is_empty (sort_checks allow (c ∷ [])).failed ≡ true)

Succeeded→Clears : (allow : List Text) (c : Check) → Succeeded allow c → Clears allow c
unfolding sort_checks classify_check classify_run classify_status
Succeeded→Clears allow not_object h = elim h [ ]
Succeeded→Clears allow (object e) (run_succeeded _ r s c) = ground arith
Succeeded→Clears allow (object e) (skip_allowed _ r s c n) =
    ground (arith, text_eq_lem (upper (get e.conclusion)) (codes "SKIPPED"))
Succeeded→Clears allow (object e) (status_succeeded _ r s c) = ground arith

run-Succeeded :
    (allow : List Text) (e : Entry)
    → is_check_run e ≡ true
    → Clears allow (object e)
    → Succeeded allow (object e)
unfolding sort_checks classify_check classify_run
run-Succeeded allow e r h =
    elim (Bool-cases (text_eq (upper (get e.conclusion)) (codes "SUCCESS"))) [
      | inl won ↦ run_succeeded e r (ground arith) won
      | inr lost ↦ skip_allowed e r (ground arith) (ground arith) (ground arith)
    ]

Clears→Succeeded : (allow : List Text) (c : Check) → Clears allow c → Succeeded allow c
unfolding sort_checks classify_check classify_status
Clears→Succeeded allow not_object h = ground arith
Clears→Succeeded allow (object e) h = elim (Bool-cases (is_check_run e)) [
  | inl run ↦ run-Succeeded allow e run h
  | inr other ↦ status_succeeded e other (ground arith) (ground arith)
]

-- The piles of a list are clear just where those of its parts are.
abbrev AllClear : List Text → List Check → Type 0
AllClear allow cs =
    (is_empty (sort_checks allow cs).waiting ≡ true)
    × (is_empty (sort_checks allow cs).failed ≡ true)

clear_cons :
    (allow : List Text) (c : Check) (cs : List Check)
    → AllClear allow (c ∷ cs) ↔ (Clears allow c × AllClear allow cs)
unfolding sort_checks
clear_cons allow c cs = (λ h. ground arith, λ h. ground arith)

piles_empty_iff :
    (allow : List Text) (cs : List Check) → AllClear allow cs ↔ All (Succeeded allow) cs
piles_empty_iff allow [] = unfold sort_checks in (λ h. tt, λ h. (refl, refl))
piles_empty_iff allow (c ∷ cs) = (
  λ h.
      let (first, rest) = (clear_cons allow c cs).0 h in
      (Clears→Succeeded allow c first, (piles_empty_iff allow cs).0 rest),
  λ h. (clear_cons allow c cs).1 (Succeeded→Clears allow c h.0, (piles_empty_iff allow cs).1 h.1),
)

-- What the merge command needs.
pub record Mergeable (allow : List Text) (f : Fetched) : Type 0 where
  pub state : Field
  pub first : Check
  pub rest : List Check
  pub read : f ≡ payload state (checks (first ∷ rest))
  pub is_open : Says state (codes "OPEN")
  pub succeeded : All (Succeeded allow) (first ∷ rest)

-- The merge command is run exactly when the pull request could be read, is open, reports at least
-- one check, and every check that it reports has completed with success or is a skip that was
-- allowed by its name.
pub safe_merge_runs_iff :
    (allow : List Text) (f : Fetched) (rc : ℕ)
    → ((safe_merge allow f rc).1 ≡ true) ↔ Mergeable allow f
unfolding safe_merge evaluate_checks
safe_merge_runs_iff allow raised rc = (λ h. cc, λ m. cc (m.read))
safe_merge_runs_iff allow not_dict rc = (λ h. cc, λ m. cc (m.read))
safe_merge_runs_iff allow (payload state not_list) rc = (λ h. ground arith, λ m. cc (m.read))
safe_merge_runs_iff allow (payload state (checks [])) rc = (λ h. ground arith, λ m. cc (m.read))
safe_merge_runs_iff allow (payload state (checks (c ∷ cs))) rc = (
  λ h. record {
    state = state;
    first = c;
    rest = cs;
    read = refl;
    is_open = ground arith;
    succeeded = (piles_empty_iff allow (c ∷ cs)).0 (ground arith, ground arith);
  },
  λ m. ground (arith, m.read, m.is_open, (piles_empty_iff allow (m.first ∷ m.rest)).1 m.succeeded),
)
