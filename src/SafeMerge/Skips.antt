-- ===== src/SafeMerge/Skips.antt =====
-- What a skipped check, a neutral one and the exit status of the merge command do.
use wingmen_orchestrator.Prelude.{ℕ, ◌≡◌, ◌↔◌, refl, map, true, List, [], ◌∷◌, All, arith}
use wingmen_orchestrator.Prelude.Texts.{Text, codes, upper, text_eq_lem}
use wingmen_orchestrator.SafeMerge.{
  raised, not_dict, payload, get, Entry, object, shown_name, named, is_check_run, fail,
  classify_run, classify_check, sort_checks, checks, evaluate_checks, Fetched, safe_merge,
}
use wingmen_orchestrator.SafeMerge.Decision.{Says}

-- A check-run that ended in NEUTRAL fails, whatever names are allowed to be skipped.
pub neutral_fails :
    (allow : List Text) (e : Entry)
    → is_check_run e ≡ true
    → Says e.status (codes "COMPLETED")
    → Says e.conclusion (codes "NEUTRAL")
    → (classify_check allow (object e)).0 ≡ fail
unfolding classify_check classify_run
neutral_fails allow e r s c =
    ground (arith, text_eq_lem (upper (get e.conclusion)) (codes "NEUTRAL"))

-- A check that is a skip under an allowed name.
pub record IsAllowedSkip (allow : List Text) (e : Entry) : Type 0 where
  pub run : is_check_run e ≡ true
  pub completed : Says e.status (codes "COMPLETED")
  pub skipped : Says e.conclusion (codes "SKIPPED")
  pub allowed : named (shown_name e) allow ≡ true

skips_sorted :
    (allow : List Text) (es : List Entry)
    → All (IsAllowedSkip allow) es
    → ((sort_checks allow (map object es)).passed ≡ [])
      × ((sort_checks allow (map object es)).waiting ≡ [])
      × ((sort_checks allow (map object es)).failed ≡ [])
unfolding sort_checks classify_check classify_run
skips_sorted allow [] h = (refl, refl, refl)
skips_sorted allow (e ∷ es) h = ground (
  arith,
  h.0,
  skips_sorted allow es h.1,
  text_eq_lem (upper (get e.conclusion)) (codes "SKIPPED"),
)

-- A pull request all of whose checks were skipped under allowed names, one or more of them, is
-- decided mergeable although no check has passed.
pub only_skips_merge :
    (allow : List Text) (e : Entry) (es : List Entry)
    → All (IsAllowedSkip allow) (e ∷ es)
    → ((evaluate_checks allow (checks (object e ∷ map object es))).ok ≡ true)
      × ((evaluate_checks allow (checks (object e ∷ map object es))).passed ≡ [])
unfolding evaluate_checks
only_skips_merge allow e es h = ground (arith, skips_sorted allow (e ∷ es) h)

-- Where the merge command is run, the decision is ok exactly when the command exited with 0.
pub merged_iff_exit_zero :
    (allow : List Text) (f : Fetched) (rc : ℕ)
    → (safe_merge allow f rc).1 ≡ true
    → ((safe_merge allow f rc).0.ok ≡ true) ↔ (rc ≡ 0)
unfolding safe_merge
merged_iff_exit_zero allow raised rc h = cc
merged_iff_exit_zero allow not_dict rc h = cc
merged_iff_exit_zero allow (payload state rollup) rc h = (λ ok. ground arith, λ zero. ground arith)
