-- ===== src/Gates/Boundaries/Lanes.antt =====
-- When the health agent may reset a lane.
use wingmen_orchestrator.Prelude.{
  String, ◌≡◌, Bool, true, false, not, ◌&&◌, ◌↔◌, ◌⊎◌, Option, List, any, string_eq, if◌then◌else◌,
  arith,
}
use wingmen_orchestrator.Prelude.Texts.{Text, text_eq}
use wingmen_orchestrator.Gates.Boundaries.{
  singleton_bodies, running_as_sre, all_verified, assert_sre_lane_red_permitted,
}

-- A red reset of a lane is permitted exactly when the identity is not the health agent's, whatever the
-- target, or the target is none of the four singleton bodies, the reset is armed, and a gate map has
-- idle, git_clean and fresh_handoff each as True.
pub lane_red_permitted_iff :
    (lease_as : Option Text) (target : Text) (gates : Option (List (String × Bool))) (armed : Bool)
    (identity : Option Text)
    → (assert_sre_lane_red_permitted lease_as target gates armed identity ≡ true) ↔ (
        (running_as_sre lease_as identity ≡ false)
        ⊎ ((any (text_eq target) singleton_bodies ≡ false)
            × (armed ≡ true)
            × (all_verified gates ≡ true)))
unfolding assert_sre_lane_red_permitted
lane_red_permitted_iff lease_as target gates armed identity =
    by_cases (running_as_sre lease_as identity) (any (text_eq target) singleton_bodies) armed
      (all_verified gates)
  where
    by_cases :
        (sre single arm all_true : Bool)
        → ((if not (not (sre && single))
              then false
              else if not sre
              then true
              else if not arm
              then false
              else all_true)
            ≡ true)
          ↔ ((sre ≡ false) ⊎ ((single ≡ false) × (arm ≡ true) × (all_true ≡ true)))
    by_cases sre single arm all_true = ground arith
