-- ===== src/Drain/Grant/Conditions.antt =====
-- When a ruling is granted.
use wingmen_orchestrator.Prelude.{
  ◌≡◌, ◌≢◌, ◌↔◌, ◌⊎◌, refl, String, Bool, true, false, ◌&&◌, Option, none, some, [], ◌∷◌, any, ◌==◌,
  string_eq, arith, eq_iff,
}
use wingmen_orchestrator.Prelude.Texts.{Text, contains}
use wingmen_orchestrator.Drain.Grant.{
  Ruling, granted, is_text, is_closed, is_unnamed, evaluate_grant,
}

-- What a grant rests on.
pub record IsGranted (row : Ruling) (is_migration : Bool) (file : Option Text) : Type 0 where
  pub signalled : row.execution_status ≡ some "granted"
  pub executor : any (λ r. r == "ihsanos") row.repos_affected ≡ true
  pub closed :
      (row.challenge_status ≡ some "accepted")
      ⊎ ((row.challenge_status ≡ some "accepted_by_timeout")
          ⊎ (row.challenge_status ≡ some "unchallenged"))
  pub named :
      is_migration ≡ true
      → (f : Text) × (file ≡ some f) × (f ≢ []) × (contains row.decision f ≡ true)

closed_as :
    (o : Option String)
    → is_closed o ≡ true
    → (o ≡ some "accepted") ⊎ ((o ≡ some "accepted_by_timeout") ⊎ (o ≡ some "unchallenged"))
closed_as none h = cc
closed_as (some v) h =
    ground (arith, eq_iff v "accepted", eq_iff v "accepted_by_timeout", eq_iff v "unchallenged")

signalled_as : (o : Option String) → is_text o "granted" ≡ true → o ≡ some "granted"
signalled_as none h = cc
signalled_as (some v) h = ground (arith, eq_iff v "granted")

named_as :
    (o : Option Text) (d : Text)
    → is_unnamed o d ≡ false
    → (f : Text) × (o ≡ some f) × (f ≢ []) × (contains d f ≡ true)
named_as none d h = cc
named_as (some f) d h = (f, refl, ground arith, ground arith)

signalled_back : (o : Option String) → o ≡ some "granted" → is_text o "granted" ≡ true
signalled_back none h = cc
signalled_back (some v) h = ground (arith, eq_iff v "granted")

closed_back :
    (o : Option String)
    → (o ≡ some "accepted") ⊎ ((o ≡ some "accepted_by_timeout") ⊎ (o ≡ some "unchallenged"))
    → is_closed o ≡ true
closed_back none h = ground arith
closed_back (some v) h =
    ground (arith, eq_iff v "accepted", eq_iff v "accepted_by_timeout", eq_iff v "unchallenged")

unnamed_back :
    (m : Bool) (o : Option Text) (d : Text)
    → (m ≡ true → (f : Text) × (o ≡ some f) × (f ≢ []) × (contains d f ≡ true))
    → (m && is_unnamed o d) ≡ false
unnamed_back false o d h = refl
unnamed_back true none d h = let (f, e, ne, c) = h refl in cc
unnamed_back true (some []) d h = let (f, e, ne, c) = h refl in absurd (ne (cc))
unnamed_back true (some (x ∷ s)) d h = let (f, e, ne, c) = h refl in ground arith

-- A ruling is granted exactly when its execution status is the grant signal, it names ihsanos as an
-- executor, its challenge window is closed by one of the three states, and, for a migration, a file
-- name that is not empty stands in its decision.
pub evaluate_grant_iff :
    (row : Ruling) (is_migration : Bool) (file : Option Text)
    → ((evaluate_grant row is_migration file).status ≡ granted) ↔ IsGranted row is_migration file
unfolding evaluate_grant
evaluate_grant_iff row is_migration file = (
  λ h. record {
    signalled = signalled_as row.execution_status (ground arith);
    executor = ground arith;
    closed = closed_as row.challenge_status (ground arith);
    named = λ m. named_as file row.decision (ground arith);
  },
  λ g. ground (
    arith,
    signalled_back row.execution_status g.signalled,
    closed_back row.challenge_status g.closed,
    unnamed_back is_migration file row.decision g.named,
  ),
)
