-- ===== src/Gates/AuthWrite/Trail.antt =====
-- The trail behind a write.
use wingmen_orchestrator.Prelude.{
  ◌≡◌, ◌≢◌, refl, true, false, ◌⊎◌, inl, inr, Option, none, some, List, [], arith,
}
use wingmen_orchestrator.Prelude.Texts.{Text, strip}
use wingmen_orchestrator.Gates.Authorization.{or_blank, Row, Request, verified_authorization}
use wingmen_orchestrator.Gates.Authorization.Backed.{Backs, verified_authorization-Backs}
use wingmen_orchestrator.Gates.AuthWrite.{is_qa_target, qa_targets, is_found, gated_write}
use wingmen_orchestrator.Gates.AuthWrite.Conditions.{Resolves, Granted, authorize_auth_write_iff}

no_targets : (t : Option Text) → is_qa_target t qa_targets ≡ false
unfolding is_qa_target
no_targets t = ground arith

is_found-some : (o : Option Row) → some (is_found o) ≡ some true → (r : Row) × (o ≡ some r)
is_found-some none h = cc
is_found-some (some r) h = (r, refl)

-- Every write that the gate lets through, with its pinned list of targets and its default look-ups,
-- names a user, whose selector resolves to that one user in the target's database, and has behind it an
-- inbound Telegram row of the operator, later than the request, with an approval phrase and a token.
pub gated_write-Backs :
    (musa : Option Text) (q : Request) (table : Option (List Row)) (t e d : Option Text)
    (resolver : Text → Option (List (Option Text)))
    → (gated_write musa q table t e d resolver).ok ≡ true
    → (strip (or_blank e) ≢ [])
      × Resolves e (resolver (or_blank d))
      × ((r : Row) × Backs musa q table r)
unfolding gated_write
gated_write-Backs musa q table t e d resolver h =
    let found = verified_authorization musa q table in
    granted ((authorize_auth_write_iff qa_targets t e d resolver (some (is_found found))).0 h)
  where
    granted :
        (is_qa_target t qa_targets ≡ true)
          ⊎ Granted e d resolver (some (is_found (verified_authorization musa q table)))
        → (strip (or_blank e) ≢ [])
          × Resolves e (resolver (or_blank d))
          × ((r : Row) × Backs musa q table r)
    granted (inl x) = absurd (ground (arith, x, no_targets t))
    granted (inr g) =
        let f = is_found-some (verified_authorization musa q table) g.1 in
        (g.0, g.3, (f.0, verified_authorization-Backs musa q table f.0 f.1))
