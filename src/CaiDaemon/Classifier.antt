-- ===== src/CaiDaemon/Classifier.antt =====
-- cc_cai_daemon/classifier.py. A confidence is in hundredths. The f-strings of a reason are kept as
-- the values that they print.
mod Patterns
pub mod Lanes
unfoldable pub use Patterns.{keyword_layers, tripwire_search, calibration_search, findings_search}
pub use Patterns.{
  Category, halal_riba, zakat, client_data_amanah, client_facing_commitment, ip_legal_contract,
  money_above_threshold, irreversible_destructive, novel_low_confidence,
}
use wingmen_orchestrator.Prelude.{
  ℕ, String, Bool, true, false, not, ◌&&◌, ◌||◌, Option, none, some, List, [], ◌∷◌, ◌++◌, ◌==◌,
  string_eq, if◌then◌else◌,
}
use wingmen_orchestrator.Prelude.Texts.{Text, codes, lower, contains}

-- A row of agent_messages, as the poller selects it.
pub record Message : Type 0 where
  pub id : ℕ
  pub thread_id : String
  pub from_agent : String
  pub subject : Option Text
  pub body : Option Text
  pub priority : Option String
  pub message_type : Option String
  pub requires_response : Bool

pub data Label : Type 0 where
  mark_read_fyi ack_fyi escalate : Label

pub data Reason : Type 0 where
  keyword_match : Category → Text → Reason
  high_priority : String → Reason
  substantive_type : String → Reason
  tripwire_report calibration_summary timeout_ratification digest_echo generic_update : Reason
  agreed_fyi digest_type decision_by_timeout decision_needs_read : Reason
  default_hold : String → String → Bool → Reason

pub record Classification : Type 0 where
  pub label : Label
  pub reason : Reason
  pub confidence : ℕ
  pub escalation_category : Option Category

abbrev escalated : Reason → ℕ → Category → Classification
escalated r c k = record {
  label = escalate;
  reason = r;
  confidence = c;
  escalation_category = some k;
}

abbrev silent : Label → Reason → ℕ → Classification
silent l r c = record { label = l; reason = r; confidence = c; escalation_category = none }

-- _safe_str on a column of text
abbrev pub safe_text : Option Text → Text
safe_text none = []
safe_text (some s) = s

abbrev pub safe_str : Option String → String
safe_str none = ""
safe_str (some s) = s

abbrev pub haystack : Message → Text
haystack m = lower (safe_text m.subject ++ (codes " " ++ safe_text m.body))

unfoldable pub find_pattern : Text → List Text → Option Text
find_pattern hay [] = none
find_pattern hay (pat ∷ pats) = if contains hay pat then some pat else find_pattern hay pats

abbrev found_in : Category → Option Text → Option (Category × Text) → Option (Category × Text)
found_in category none rest = rest
found_in category (some pat) rest = some (category, pat)

-- The two nested loops of layer 1: the first match wins.
unfoldable pub find_keyword : Text → List (Category × List Text) → Option (Category × Text)
unfolding find_pattern
find_keyword hay [] = none
find_keyword hay ((category, pats) ∷ layers) =
    found_in category (find_pattern hay pats) (find_keyword hay layers)

abbrev pub is_high_priority : String → Bool
is_high_priority p = p == "P0" || p == "P1"

abbrev pub is_low_priority : String → Bool
is_low_priority p = p == "P2" || p == "P3" || p == "P4"

abbrev pub is_escalate_type : String → Bool
is_escalate_type t = t == "challenge" || t == "blocker" || t == "counter"

-- Layer 3 for an update in the narrow lane.
unfoldable pub classify_update : Text → Classification
unfolding tripwire_search calibration_search findings_search contains
classify_update subj =
    if tripwire_search subj
    then silent ack_fyi tripwire_report 90
    else if calibration_search subj || findings_search subj
    then silent ack_fyi calibration_summary 85
    else if contains subj (codes "accepted_by_timeout")
    then silent mark_read_fyi timeout_ratification 95
    else if contains subj (codes "digest")
        || contains subj (codes "status.md")
        || contains subj (codes "session_digest")
    then silent mark_read_fyi digest_echo 90
    else silent mark_read_fyi generic_update 70

-- Layers 3 and 4.
unfoldable pub classify_routine : Text → String → String → Bool → Classification
classify_routine subj priority message_type requires_response =
    if message_type == "update" && not requires_response && is_low_priority priority
    then classify_update subj
    else if message_type == "agreed" && not requires_response
    then silent mark_read_fyi agreed_fyi 90
    else if message_type == "digest"
    then silent mark_read_fyi digest_type 95
    else if message_type == "decision" && not requires_response
    then (if contains subj (codes "accepted_by_timeout")
        then silent mark_read_fyi decision_by_timeout 95
        else escalated decision_needs_read 80 novel_low_confidence)
    else escalated (default_hold message_type priority requires_response) 40 novel_low_confidence

-- Layers 2 to 4.
unfoldable pub classify_by_shape : Text → String → String → Bool → Classification
classify_by_shape subj priority message_type requires_response =
    if is_high_priority priority
    then escalated (high_priority priority) 95 novel_low_confidence
    else if is_escalate_type message_type
    then escalated (substantive_type message_type) 95 novel_low_confidence
    else classify_routine subj priority message_type requires_response

abbrev classify_found : Option (Category × Text) → Classification → Classification
classify_found none rest = rest
classify_found (some (category, pat)) rest = escalated (keyword_match category pat) 100 category

unfoldable pub classify : Message → Classification
classify m = classify_found (find_keyword (haystack m) keyword_layers) (
    classify_by_shape (lower (safe_text m.subject)) (safe_str m.priority) (safe_str m.message_type)
      m.requires_response)
