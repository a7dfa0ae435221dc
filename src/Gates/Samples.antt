-- ===== src/Gates/Samples.antt =====
-- Sample requests.
use wingmen_orchestrator.Prelude.{
  ◌≡◌, ◌≢◌, refl, String, Bool, true, false, Option, none, some, List, [], ◌∷◌, if◌then◌else◌,
}
use wingmen_orchestrator.Prelude.Texts.{Text, codes, strip, contains, text_eq}
use wingmen_orchestrator.Gates.Authorization.{
  Row, Request, lowered, qualifies, first_qualified, find_verified_authorization, select,
  fetch_candidate_rows, verified_authorization,
}
use wingmen_orchestrator.Gates.Authorization.Backed.{Backs}
use wingmen_orchestrator.Gates.AuthWrite.{
  is_qa_target, uid_equality_ok, authorize_auth_write, gated_write,
}
use wingmen_orchestrator.Gates.AuthWrite.Conditions.{Resolves}
use wingmen_orchestrator.Gates.AuthWrite.Trail.{gated_write-Backs}
use wingmen_orchestrator.Gates.Boundaries.{
  acting_identity, running_as_sre, is_verified, assert_sre_lane_red_permitted,
}

abbrev yes_row : Row
yes_row = record {
  id = 9;
  direction = some (codes "inbound");
  channel = some (codes "telegram");
  chat_id = some (codes "77");
  text = some (codes "Yes auth-write for salsabiila");
  created_at = some 120;
}

abbrev request : Request
request = record {
  after = some 100;
  approval_phrases = codes "YES AUTH-WRITE" ∷ [];
  op_tokens = codes "salsabiila" ∷ codes "irsyad" ∷ [];
  operator_chat_id = none;
  has_dsn = true;
}

-- The silo resolves the address to another user.
abbrev silo : Text → Option (List (Option Text))
silo dsn = if text_eq dsn (codes "silo") then some (some (codes "6760aba1") ∷ []) else none

abbrev write : Text → Bool
write uid =
    (gated_write (some (codes "77")) request (some (yes_row ∷ [])) (some (codes "goumlyne"))
      (some uid) (some (codes "silo")) silo).ok

write_test : write (codes " 6760aba1 ") ≡ true
unfolding gated_write authorize_auth_write is_qa_target uid_equality_ok verified_authorization
    find_verified_authorization fetch_candidate_rows select first_qualified qualifies lowered
    contains
write_test = refl

other_user_test : write (codes "1111aaaa") ≡ false
unfolding gated_write authorize_auth_write is_qa_target uid_equality_ok verified_authorization
    find_verified_authorization fetch_candidate_rows select first_qualified qualifies lowered
    contains
other_user_test = refl

gated_write-Backs_example :
    (strip (codes " 6760aba1 ") ≢ [])
    × Resolves (some (codes " 6760aba1 ")) (silo (codes "silo"))
    × ((r : Row) × Backs (some (codes "77")) request (some (yes_row ∷ [])) r)
gated_write-Backs_example =
    gated_write-Backs (some (codes "77")) request (some (yes_row ∷ [])) (some (codes "goumlyne"))
      (some (codes " 6760aba1 ")) (some (codes "silo")) silo write_test

abbrev gates : Option (List (String × Bool))
gates = some (("idle", true) ∷ ("git_clean", true) ∷ ("fresh_handoff", false) ∷ [])

-- A stale handoff is refused; the hub is not gated, not even on a singleton.
stale_test : assert_sre_lane_red_permitted none (codes "irsyad") gates true none ≡ false
unfolding assert_sre_lane_red_permitted running_as_sre acting_identity is_verified
stale_test = refl

hub_test :
    assert_sre_lane_red_permitted none (codes "cai") none false (some (codes "cc-orchestrator"))
    ≡ true
unfolding assert_sre_lane_red_permitted running_as_sre acting_identity is_verified
hub_test = refl
