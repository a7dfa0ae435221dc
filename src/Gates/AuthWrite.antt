-- ===== src/Gates/AuthWrite.antt =====
-- scripts/lib/auth_write_gate.py. The rows that the selector resolves to, and the grant, are `none` where
-- their look-up raises; a row is its id. A reason is its kind.
pub mod Conditions
pub mod Trail
use wingmen_orchestrator.Prelude.{
  Bool, true, false, not, ◌&&◌, ◌||◌, Option, none, some, List, [], ◌∷◌, any, is_empty,
  if◌then◌else◌,
}
use wingmen_orchestrator.Prelude.Texts.{Text, strip, text_eq}
use wingmen_orchestrator.Gates.Authorization.{or_blank, Row, Request, verified_authorization}

pub data Reason : Type 0 where
  qa_target no_expected_uid grant_errored no_grant no_target_dsn resolution_failed : Reason
  resolved_none resolved_many different_user authorized : Reason

pub record AuthResult : Type 0 where
  pub ok : Bool
  pub reason : Reason

abbrev pub denied : Reason → AuthResult
denied r = record { ok = false; reason = r }

abbrev pub permitted : Reason → AuthResult
permitted r = record { ok = true; reason = r }

unfoldable pub is_qa_target : Option Text → List Text → Bool
is_qa_target project_ref qa_allowlist =
    let ref = strip (or_blank project_ref) in not (is_empty ref) && any (text_eq ref) qa_allowlist

abbrev pub same_uid : Text → List (Option Text) → AuthResult
same_uid want [] = denied resolved_none
same_uid want (got ∷ []) =
    if text_eq (strip (or_blank got)) want then permitted authorized else denied different_user
same_uid want (got ∷ other ∷ rows) = denied resolved_many

unfoldable pub uid_equality_ok : List (Option Text) → Option Text → AuthResult
uid_equality_ok resolved_rows expected_uid =
    let want = strip (or_blank expected_uid) in
    if is_empty want then denied no_expected_uid else same_uid want resolved_rows

abbrev pub after_resolution : Option Text → Option (List (Option Text)) → AuthResult
after_resolution expected_uid none = denied resolution_failed
after_resolution expected_uid (some rows) = uid_equality_ok rows expected_uid

abbrev pub after_grant :
    Option Text → Option Text → (Text → Option (List (Option Text))) → Option Bool → AuthResult
after_grant expected_uid target_dsn resolver none = denied grant_errored
after_grant expected_uid target_dsn resolver (some false) = denied no_grant
after_grant expected_uid target_dsn resolver (some true) =
    let dsn = or_blank target_dsn in
    if is_empty (strip dsn)
    then denied no_target_dsn
    else after_resolution expected_uid (resolver dsn)

unfoldable pub authorize_auth_write :
    List Text
    → Option Text
    → Option Text
    → Option Text
    → (Text → Option (List (Option Text)))
    → Option Bool
    → AuthResult
unfolding is_qa_target uid_equality_ok
authorize_auth_write qa_allowlist target_ref expected_uid target_dsn resolver grant =
    if is_qa_target target_ref qa_allowlist
    then permitted qa_target
    else if is_empty (strip (or_blank expected_uid))
    then denied no_expected_uid
    else after_grant expected_uid target_dsn resolver grant

-- The list that the code pins is empty.
abbrev pub qa_targets : List Text
qa_targets = []

abbrev pub is_found : Option Row → Bool
is_found none = false
is_found (some r) = true

-- With the default list, look-up and grant: this one catches its own errors.
unfoldable pub gated_write :
    Option Text
    → Request
    → Option (List Row)
    → Option Text
    → Option Text
    → Option Text
    → (Text → Option (List (Option Text)))
    → AuthResult
unfolding authorize_auth_write verified_authorization
gated_write musa q table target_ref expected_uid target_dsn resolver =
    authorize_auth_write qa_targets target_ref expected_uid target_dsn resolver
      (some (is_found (verified_authorization musa q table)))
