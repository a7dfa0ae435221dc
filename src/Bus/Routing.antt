-- ===== src/Bus/Routing.antt =====
-- nervous_system/agent_messages_poll.py: which message is for Telegram, and in which form. A text for
-- Telegram is kept as its form and the parts of the message that it shows.
pub mod Forms
use wingmen_orchestrator.Prelude.{
  ℕ, Bool, true, false, not, ◌&&◌, Option, none, some, List, [], ◌∷◌, any, ltb, length, take, ◌++◌,
  is_empty, if◌then◌else◌,
}
use wingmen_orchestrator.Prelude.Texts.{Text, codes, starts_with, text_eq}
use wingmen_orchestrator.Bus.Wake.{Priority, is_p3}

pub record Message : Type 0 where
  pub id : ℕ
  pub from_agent : Text
  pub to_agent : Option Text
  pub message_type : Text
  pub subject : Option Text
  pub body : Text
  pub requires_response : Bool
  pub priority : Priority
  pub is_test : Bool
  pub created_at : ℕ

abbrev pub has_subject : Message → Bool
has_subject m = elim m.subject [ none ↦ false | some t ↦ true ]

-- subject or ""
abbrev pub subject_text : Message → Text
subject_text m = elim m.subject [ none ↦ [] | some t ↦ t ]

-- subject or "(no subject)"
abbrev pub shown_subject : Message → Text
shown_subject m = if is_empty (subject_text m) then codes "(no subject)" else subject_text m

abbrev banned_prefixes : List Text
banned_prefixes =
    codes "CLAIM:" ∷ codes "STATUS:" ∷ codes "HEARTBEAT:" ∷ codes "DIGEST:" ∷ codes "COMPLETE:" ∷ []

unfoldable pub is_banned : Text → Bool
is_banned subject = any (starts_with subject) banned_prefixes

abbrev cc_prefix : Text
cc_prefix = codes "cc-"

abbrev telegram_routed_targets : List Text
telegram_routed_targets = codes "cai" ∷ codes "musa" ∷ codes "broadcast" ∷ []

unfoldable pub is_routed_target : Option Text → Bool
is_routed_target none = false
is_routed_target (some a) = any (text_eq a) telegram_routed_targets

-- bool(to_agent) and to_agent.startswith("cc-")
unfoldable pub is_cc : Option Text → Bool
is_cc none = false
is_cc (some a) = not (is_empty a) && starts_with a cc_prefix

unfoldable pub is_from_cai : Text → Bool
is_from_cai from_agent = text_eq from_agent (codes "cai")

unfoldable pub is_cc_to_cc : Text → Option Text → Bool
is_cc_to_cc from_agent to_agent = starts_with from_agent cc_prefix && is_cc to_agent

unfoldable pub is_routable : Message → Bool
is_routable m =
    if is_banned (subject_text m)
    then false
    else if is_cc_to_cc m.from_agent m.to_agent
    then false
    else if is_from_cai m.from_agent && is_cc m.to_agent
    then true
    else is_routed_target m.to_agent

pub data Body : Type 0 where
  cai_to_cc : Bool → Option Text → Text → Body
  needs_input : Text → Text → Body
  challenge : Text → Option Text → Text → Body
  agreed : Text → Body
  blocker : Text → Text → Text → Body
  question review_request decision : Text → Text → Body
  update : Text → Body

abbrev snippet : Text → Text
snippet body = if ltb 200 (length body) then take 200 body ++ codes "..." else body

unfoldable pub of_type : Message → Body
of_type m =
    if text_eq m.message_type (codes "challenge")
    then challenge m.from_agent m.to_agent (shown_subject m)
    else if text_eq m.message_type (codes "agreed")
    then agreed (shown_subject m)
    else if text_eq m.message_type (codes "blocker")
    then blocker m.from_agent (shown_subject m) (snippet m.body)
    else if text_eq m.message_type (codes "question")
    then question m.from_agent (shown_subject m)
    else if text_eq m.message_type (codes "review_request")
    then review_request m.from_agent (shown_subject m)
    else if text_eq m.message_type (codes "decision")
    then decision m.from_agent (shown_subject m)
    else update (shown_subject m)

unfoldable pub format_telegram_body : Message → Option Body
format_telegram_body m =
    if is_cc_to_cc m.from_agent m.to_agent
    then none
    else if is_from_cai m.from_agent && is_cc m.to_agent
    then some (cai_to_cc m.requires_response m.to_agent (shown_subject m))
    else if not (is_routed_target m.to_agent)
    then none
    else if m.requires_response
    then some (needs_input m.from_agent (shown_subject m))
    else some (of_type m)

-- The glyph stands for the priority.
pub record Telegram : Type 0 where
  pub glyph : Priority
  pub body : Body

abbrev with_glyph : Priority → Option Body → Option Telegram
with_glyph p none = none
with_glyph p (some b) = some (record { glyph = p; body = b })

unfoldable pub format_telegram : Message → Option Telegram
format_telegram m =
    if is_p3 m.priority then none else with_glyph m.priority (format_telegram_body m)
