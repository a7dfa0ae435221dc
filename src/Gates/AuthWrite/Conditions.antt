-- ===== src/Gates/AuthWrite/Conditions.antt =====
-- When a write to a client's logins may proceed.
use mathlib.Core.Path.{subst}
use wingmen_orchestrator.Prelude.{
  ◌≡◌, ◌≢◌, refl, sym, ap, Bool, true, false, ◌↔◌, ◌⊎◌, inl, inr, Option, none, some, List, [], ◌∷◌,
  is_empty, if◌then◌else◌, arith, Bool-cases,
}
use wingmen_orchestrator.Prelude.Texts.{Text, strip, text_eq, text_eq_lem, text_eq_self}
use wingmen_orchestrator.Gates.Authorization.{or_blank}
use wingmen_orchestrator.Gates.AuthWrite.{
  AuthResult, no_expected_uid, authorized, different_user, denied, permitted, is_qa_target,
  same_uid, uid_equality_ok, after_resolution, after_grant, authorize_auth_write,
}

-- The selector resolves to one row, and its id is the one that is asserted.
abbrev pub Resolves : Option Text → Option (List (Option Text)) → Type 0
Resolves expected_uid rows =
    (got : Option Text) × (rows ≡ some (got ∷ []))
    × (strip (or_blank got) ≡ strip (or_blank expected_uid))

same_uid-ok :
    (want : Text) (rows : List (Option Text))
    → (same_uid want rows).ok ≡ true
    → (got : Option Text) × (rows ≡ got ∷ []) × (strip (or_blank got) ≡ want)
same_uid-ok want [] h = cc
same_uid-ok want (got ∷ []) h =
    (got, refl, text_eq_lem (strip (or_blank got)) want (ground (arith, h)))
same_uid-ok want (got ∷ other ∷ rows) h = cc

uid_equality_ok-Resolves :
    (e : Option Text) (rows : List (Option Text))
    → (uid_equality_ok rows e).ok ≡ true
    → Resolves e (some rows)
unfolding uid_equality_ok
uid_equality_ok-Resolves e rows h =
    let same : (same_uid (strip (or_blank e)) rows).ok ≡ true = ground (arith, h) in
    let r = same_uid-ok (strip (or_blank e)) rows same in (r.0, ap some r.1, r.2)

abbrev judged : Text → Text → AuthResult
judged w v =
    if is_empty w
    then denied no_expected_uid
    else if text_eq v w
    then permitted authorized
    else denied different_user

judged_ok : (w : Text) → w ≢ [] → text_eq w w ≡ true → (judged w w).ok ≡ true
judged_ok [] ne self = absurd (ne refl)
judged_ok (c ∷ w) ne self = rw self refl

Resolves-ok :
    (e : Option Text) (rows : Option (List (Option Text)))
    → strip (or_blank e) ≢ []
    → Resolves e rows
    → (after_resolution e rows).ok ≡ true
unfolding uid_equality_ok
Resolves-ok e rows ne (got, f, h) =
    let w = strip (or_blank e) in
    subst (λ x. (after_resolution e x).ok ≡ true) (sym f)
      (subst (λ v. (judged w v).ok ≡ true) (sym h) (judged_ok w ne (text_eq_self w)))

after_resolution-ok :
    (e : Option Text) (rows : Option (List (Option Text)))
    → (after_resolution e rows).ok ≡ true
    → Resolves e rows
after_resolution-ok e none h = cc
after_resolution-ok e (some rows) h = uid_equality_ok-Resolves e rows h

-- What the gate asks of a target that is not on the list.
abbrev pub Granted :
    Option Text → Option Text → (Text → Option (List (Option Text))) → Option Bool → Type 0
Granted expected_uid target_dsn resolver grant =
    (strip (or_blank expected_uid) ≢ [])
    × (grant ≡ some true)
    × (strip (or_blank target_dsn) ≢ [])
    × Resolves expected_uid (resolver (or_blank target_dsn))

is_empty_iff : (t : Text) → (is_empty t ≡ false) ↔ (t ≢ [])
is_empty_iff [] = ground arith
is_empty_iff (c ∷ t) = ((λ h. λ e. cc), (λ h. refl))

after_grant-Granted :
    (e d : Option Text) (resolver : Text → Option (List (Option Text))) (g : Option Bool)
    → strip (or_blank e) ≢ []
    → (after_grant e d resolver g).ok ≡ true
    → Granted e d resolver g
after_grant-Granted e d resolver none ne h = cc
after_grant-Granted e d resolver (some false) ne h = cc
after_grant-Granted e d resolver (some true) ne h =
    elim (Bool-cases (is_empty (strip (or_blank d)))) [
      | inl b ↦ absurd (blank b h)
      | inr b ↦ (
        ne,
        refl,
        (is_empty_iff (strip (or_blank d))).0 b,
        after_resolution-ok e (resolver (or_blank d)) (named b h),
      )
    ]
  where
    blank :
        is_empty (strip (or_blank d)) ≡ true → (after_grant e d resolver (some true)).ok ≡ true → ⊥
    blank b = rw b (λ h. cc)

    named :
        is_empty (strip (or_blank d)) ≡ false
        → (after_grant e d resolver (some true)).ok ≡ true
        → (after_resolution e (resolver (or_blank d))).ok ≡ true
    named b = rw b (λ h. h)

Granted-ok :
    (e d : Option Text) (resolver : Text → Option (List (Option Text))) (g : Option Bool)
    → Granted e d resolver g
    → (after_grant e d resolver g).ok ≡ true
Granted-ok e d resolver g (ne, f, nd, r) =
    subst (λ x. (after_grant e d resolver x).ok ≡ true) (sym f)
      (rw ((is_empty_iff (strip (or_blank d))).1 nd) (Resolves-ok e (resolver (or_blank d)) ne r))

-- A write is authorized exactly when its target is on the list, or it names a user, the grant is found,
-- there is a database to look the user up, and the selector resolves there to one row, whose id is the
-- one named, blanks at the ends aside.
pub authorize_auth_write_iff :
    (qa : List Text) (target_ref expected_uid target_dsn : Option Text)
    (resolver : Text → Option (List (Option Text))) (grant : Option Bool)
    → ((authorize_auth_write qa target_ref expected_uid target_dsn resolver grant).ok ≡ true)
      ↔ ((is_qa_target target_ref qa ≡ true) ⊎ Granted expected_uid target_dsn resolver grant)
unfolding authorize_auth_write
authorize_auth_write_iff qa t e d resolver g = elim (Bool-cases (is_qa_target t qa)) [
  | inl q ↦ rw q ((λ h. inl refl), (λ h. refl))
  | inr q ↦ elim (Bool-cases (is_empty (strip (or_blank e)))) [
    | inl b ↦ rw (q, b) ((λ h. cc), (λ h. absurd (unnamed b h)))
    | inr b ↦
        rw (q, b)
          (
            (λ h.
                inr
                  (after_grant-Granted e d resolver g ((is_empty_iff (strip (or_blank e))).0 b) h)),
            (λ h. by_grant h),
          )
  ]
]
  where
    unnamed : is_empty (strip (or_blank e)) ≡ true → (false ≡ true) ⊎ Granted e d resolver g → ⊥
    unnamed b (inl x) = cc
    unnamed b (inr x) = ground (arith, b, (is_empty_iff (strip (or_blank e))).1 x.0)

    by_grant : (false ≡ true) ⊎ Granted e d resolver g → (after_grant e d resolver g).ok ≡ true
    by_grant (inl x) = cc
    by_grant (inr x) = Granted-ok e d resolver g x
