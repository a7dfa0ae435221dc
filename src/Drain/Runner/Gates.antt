-- ===== src/Drain/Runner/Gates.antt =====
-- What a publication needs.
use wingmen_orchestrator.Prelude.{
  ◌≡◌, ◌≢◌, ◌↔◌, ◌⊎◌, inl, inr, refl, Bool, true, false, List, [], ◌∷◌, All, arith, Bool-cases, any,
  is_empty,
}
use wingmen_orchestrator.Prelude.Texts.{Text, starts_with, contains, behind}
use wingmen_orchestrator.Drain.Grant.{Ruling}
use wingmen_orchestrator.Drain.Runner.{
  migration_prefix, is_unauthorized, unauthorized_migrations, Session, Call, publish_fn, pr_opened,
  execute_ruling,
}

-- A path that is no migration, or is named in the decision, whole or by what follows the folder.
abbrev pub Authorized : Text → Text → Type 0
Authorized decision path =
    (starts_with path migration_prefix ≡ false)
    ⊎ ((contains decision (behind path migration_prefix) ≡ true) ⊎ (contains decision path ≡ true))

allowed_path_iff :
    (decision path : Text) → (is_unauthorized decision path ≡ false) ↔ Authorized decision path
unfolding is_unauthorized
allowed_path_iff decision path = (by_branch, λ a. ground arith)
  where
    by_branch : is_unauthorized decision path ≡ false → Authorized decision path
    by_branch h = elim (Bool-cases (starts_with path migration_prefix)) [
      | inl migration ↦ elim (Bool-cases (contains decision (behind path migration_prefix))) [
        | inl named ↦ inr (inl named)
        | inr other ↦ inr (inr (ground arith))
      ]
      | inr other ↦ inl other
    ]

none_bad_iff :
    (paths : List Text) (decision : Text)
    → (is_empty (unauthorized_migrations paths decision) ≡ true) ↔ All (Authorized decision) paths
unfolding unauthorized_migrations
none_bad_iff [] decision = (λ h. tt, λ h. refl)
none_bad_iff (path ∷ paths) decision = (
  λ h. (
    (allowed_path_iff decision path).0 (ground arith),
    (none_bad_iff paths decision).0 (ground arith),
  ),
  λ h. ground (arith, (allowed_path_iff decision path).1 h.0, (none_bad_iff paths decision).1 h.1),
)

-- What must hold before a branch is pushed.
pub record MayPublish (r : Ruling) (s : Session) : Type 0 where
  pub session_ok : s.claude_ok ≡ true
  pub has_diff : s.changed_files ≢ []
  pub authorized : All (Authorized r.decision) s.changed_files
  pub green : s.ci_green ≡ true

abbrev pub is_publish : Call → Bool
is_publish publish_fn = true
is_publish _ = false

calls_iff :
    (r : Ruling) (s : Session) → (any is_publish (execute_ruling r s).1 ≡ true) ↔ MayPublish r s
unfolding execute_ruling
calls_iff r s = (
  λ h. record {
    session_ok = ground arith;
    has_diff = ground arith;
    authorized = (none_bad_iff s.changed_files r.decision).0 (ground arith);
    green = ground arith;
  },
  λ m. ground (arith, (none_bad_iff s.changed_files r.decision).1 m.authorized, m.has_diff),
)

-- The outcome is an open pull request exactly when the branch may be published and the publication
-- succeeds. The tokens that the session spent are in the outcome whatever its status is.
pr_opened_iff :
    (r : Ruling) (s : Session)
    → (((execute_ruling r s).0.status ≡ pr_opened) ↔ (MayPublish r s × (s.published ≡ true)))
      × ((execute_ruling r s).0.tokens_spent ≡ s.tokens)
unfolding execute_ruling
pr_opened_iff r s = (
  (
    λ h. (
      record {
        session_ok = ground arith;
        has_diff = ground arith;
        authorized = (none_bad_iff s.changed_files r.decision).0 (ground arith);
        green = ground arith;
      },
      ground arith,
    ),
    λ m. ground (
      arith,
      (none_bad_iff s.changed_files r.decision).1 m.0.authorized,
      m.0.has_diff,
      m.0.session_ok,
      m.0.green,
    ),
  ),
  ground arith,
)

-- The publication of the branch is called for exactly when the Claude session is ok, there is a diff, every
-- migration among the changed files is named in the ruling's decision, and the local CI is green. The outcome
-- is an open pull request exactly when all this holds and the publication succeeds.
pub publish_iff :
    (r : Ruling) (s : Session)
    → ((any is_publish (execute_ruling r s).1 ≡ true) ↔ MayPublish r s)
      × (((execute_ruling r s).0.status ≡ pr_opened) ↔ (MayPublish r s × (s.published ≡ true)))
publish_iff r s = (calls_iff r s, (pr_opened_iff r s).0)
