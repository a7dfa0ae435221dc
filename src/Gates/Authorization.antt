-- ===== src/Gates/Authorization.antt =====
-- scripts/lib/require_verified_authorization.py. A time is an instant, or `none` where the source cannot
-- read it; the table is listed by id, the newest first, and is `none` where the database fails.
pub mod Backed
use wingmen_orchestrator.Prelude.{
  ℕ, Bool, true, false, not, ◌&&◌, ◌||◌, Option, none, some, List, [], ◌∷◌, any, is_empty, take,
  ltb, if◌then◌else◌,
}
use wingmen_orchestrator.Prelude.Texts.{Text, codes, lower, contains, text_eq}

-- The columns of `operator_messages` that are read.
pub record Row : Type 0 where
  pub id : ℕ
  pub direction : Option Text
  pub channel : Option Text
  pub chat_id : Option Text
  pub text : Option Text
  pub created_at : Option ℕ

abbrev pub or_blank : Option Text → Text
or_blank none = []
or_blank (some t) = t

-- [p.lower() for p in ps if p]
unfoldable pub lowered : List Text → List Text
lowered [] = []
lowered (p ∷ ps) = let rest = lowered ps in if is_empty p then rest else lower p ∷ rest

abbrev pub is_after : ℕ → Option ℕ → Bool
is_after after none = false
is_after after (some t) = ltb after t

unfoldable pub qualifies : Text → List Text → List Text → ℕ → Row → Bool
unfolding contains
qualifies chat phrases tokens after r =
    text_eq (lower (or_blank r.direction)) (codes "inbound")
    && text_eq (lower (or_blank r.channel)) (codes "telegram")
    && text_eq (or_blank r.chat_id) chat
    && is_after after r.created_at
    && any (contains (lower (or_blank r.text))) phrases
    && any (contains (lower (or_blank r.text))) tokens

unfoldable pub first_qualified : Text → List Text → List Text → ℕ → List Row → Option Row
unfolding qualifies
first_qualified chat phrases tokens after [] = none
first_qualified chat phrases tokens after (r ∷ rows) =
    let rest = first_qualified chat phrases tokens after rows in
    if qualifies chat phrases tokens after r then some r else rest

unfoldable pub find_verified_authorization :
    Text → List Text → List Text → ℕ → List Row → Option Row
unfolding lowered first_qualified
find_verified_authorization chat approval_phrases op_tokens after rows =
    let phrases = lowered approval_phrases in
    let tokens = lowered op_tokens in
    if is_empty chat || is_empty phrases || is_empty tokens
    then none
    else first_qualified chat phrases tokens after rows

-- The WHERE of `_fetch_candidate_rows`.
abbrev pub is_candidate : Text → ℕ → Row → Bool
is_candidate chat after r =
    text_eq (or_blank r.direction) (codes "inbound")
    && text_eq (or_blank r.channel) (codes "telegram")
    && text_eq (or_blank r.chat_id) chat
    && is_after after r.created_at

unfoldable pub select : Text → ℕ → List Row → List Row
select chat after [] = []
select chat after (r ∷ rows) =
    let rest = select chat after rows in if is_candidate chat after r then r ∷ rest else rest

unfoldable pub fetch_candidate_rows : Text → ℕ → List Row → List Row
unfolding select
fetch_candidate_rows chat after table = take 200 (select chat after table)

-- What a caller asks, and what the environment has.
pub record Request : Type 0 where
  pub after : Option ℕ
  pub approval_phrases : List Text
  pub op_tokens : List Text
  pub operator_chat_id : Option Text
  pub has_dsn : Bool

-- a or b, on texts that may be absent
abbrev pub or_else : Option Text → Option Text → Text
or_else none b = or_blank b
or_else (some t) b = if is_empty t then or_blank b else t

abbrev pub find_in : Text → Request → ℕ → Option (List Row) → Option Row
find_in chat q after none = none
find_in chat q after (some table) =
    find_verified_authorization chat q.approval_phrases q.op_tokens after
      (fetch_candidate_rows chat after table)

-- The row of the result; `none` is a refusal.
unfoldable pub verified_authorization : Option Text → Request → Option (List Row) → Option Row
unfolding find_verified_authorization fetch_candidate_rows
verified_authorization musa_telegram_id q table = elim q.after [
  | none ↦ none
  | some after ↦
      let chat = or_else q.operator_chat_id musa_telegram_id in
      if is_empty chat || not q.has_dsn || is_empty q.approval_phrases || is_empty q.op_tokens
      then none
      else find_in chat q after table
]
