-- ===== src/Gates/Boundaries.antt =====
-- scripts/lib/fleet_health_boundaries.py. An assertion is whether it returns; `none` is no argument. A gate
-- is true where its value is True itself.
pub mod Lanes
use wingmen_orchestrator.Prelude.{
  String, Bool, true, false, not, ◌&&◌, ◌||◌, Option, none, some, List, [], ◌∷◌, any, is_empty,
  ◌==◌, string_eq, if◌then◌else◌,
}
use wingmen_orchestrator.Prelude.Texts.{Text, codes, strip, text_eq}

abbrev pub sre_agent_id : Text
sre_agent_id = codes "cc-fleet-health"

abbrev pub singleton_bodies : List Text
singleton_bodies = codes "cc-orchestrator" ∷ codes "cai" ∷ codes "orch-console" ∷ sre_agent_id ∷ []

abbrev pub governance_tables : List Text
governance_tables =
    codes "strategic_decisions"
    ∷ codes "grants"
    ∷ codes "grant_requests"
    ∷ codes "authorization_grants"
    ∷ codes "residency_grants"
    ∷ []

-- (os.environ.get("FLEET_HEALTH_LEASE_AS") or SRE_AGENT_ID).strip()
unfoldable pub acting_identity : Option Text → Text
acting_identity none = strip sre_agent_id
acting_identity (some []) = strip sre_agent_id
acting_identity (some (c ∷ s)) = strip (c ∷ s)

-- identity or acting_identity()
unfoldable pub running_as_sre : Option Text → Option Text → Bool
unfolding acting_identity
running_as_sre lease_as none = text_eq (acting_identity lease_as) sre_agent_id
running_as_sre lease_as (some []) = text_eq (acting_identity lease_as) sre_agent_id
running_as_sre lease_as (some (c ∷ s)) = text_eq (c ∷ s) sre_agent_id

abbrev pub assert_no_sre_red_reset : Option Text → Text → Option Text → Bool
assert_no_sre_red_reset lease_as arm_level identity =
    not (text_eq arm_level (codes "red") && running_as_sre lease_as identity)

abbrev pub assert_sre_never_targets_singleton : Option Text → Text → Option Text → Bool
assert_sre_never_targets_singleton lease_as target identity =
    not (running_as_sre lease_as identity && any (text_eq target) singleton_bodies)

-- gates.get(g) is True
unfoldable pub is_verified : String → List (String × Bool) → Bool
is_verified g [] = false
is_verified g ((k, b) ∷ gates) = let rest = is_verified g gates in if k == g then b else rest

abbrev pub all_verified : Option (List (String × Bool)) → Bool
all_verified none = false
all_verified (some gates) =
    is_verified "idle" gates && is_verified "git_clean" gates && is_verified "fresh_handoff" gates

unfoldable pub assert_sre_lane_red_permitted :
    Option Text → Text → Option (List (String × Bool)) → Bool → Option Text → Bool
unfolding running_as_sre is_verified
assert_sre_lane_red_permitted lease_as target gates armed identity =
    if not (assert_sre_never_targets_singleton lease_as target identity)
    then false
    else if not (running_as_sre lease_as identity)
    then true
    else if not armed
    then false
    else all_verified gates

abbrev pub assert_ops_only : Option Text → Text → Option Text → Bool
assert_ops_only lease_as table identity =
    not (running_as_sre lease_as identity && any (text_eq table) governance_tables)
