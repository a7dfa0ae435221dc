-- ===== src/CaiDaemon/Classifier/Lanes.antt =====
-- What reaches the silent lane, what is escalated, and with what confidence.
use wingmen_orchestrator.Prelude.{
  ◌<◌, String, ◌≡◌, ◌≢◌, inl, inr, Bool, true, false, not, ◌&&◌, none, List, [], ◌∷◌, All,
  Bool-cases, Option-cases, arith, eq_iff, ◌==◌, string_eq,
}
use wingmen_orchestrator.Prelude.Texts.{Text, contains, lower}
use wingmen_orchestrator.CaiDaemon.Classifier.Patterns.{Category, keyword_layers}
use wingmen_orchestrator.CaiDaemon.Classifier.{
  Message, escalate, default_hold, haystack, safe_text, safe_str, find_pattern, find_keyword,
  is_high_priority, is_low_priority, is_escalate_type, classify_update, classify_routine,
  classify_by_shape, classify,
}

-- No keyword of any layer stands in the text.
abbrev pub NoKeyword : Text → List (Category × List Text) → Type 0
NoKeyword hay = All (λ layer. All (λ pat. contains hay pat ≡ false) layer.1)

find_pattern-none :
    (hay : Text) (pats : List Text)
    → find_pattern hay pats ≡ none
    → All (λ pat. contains hay pat ≡ false) pats
unfolding find_pattern
find_pattern-none hay [] h = tt
find_pattern-none hay (pat ∷ pats) h = elim (Bool-cases (contains hay pat)) [
  | inl found ↦ ground arith
  | inr absent ↦ (absent, find_pattern-none hay pats (ground arith))
]

find_keyword-none :
    (hay : Text) (layers : List (Category × List Text))
    → find_keyword hay layers ≡ none
    → NoKeyword hay layers
unfolding find_keyword
find_keyword-none hay [] h = tt
find_keyword-none hay ((category, pats) ∷ layers) h = elim (Option-cases (find_pattern hay pats)) [
  | inl clear ↦ (find_pattern-none hay pats clear, find_keyword-none hay layers (ground arith))
  | inr (pat, found) ↦ ground arith
]

update_label : (subj : Text) → (classify_update subj).label ≢ escalate
unfolding classify_update
update_label subj = ground arith

update_confidence : (subj : Text) → 50 < (classify_update subj).confidence
unfolding classify_update
update_confidence subj = ground arith

-- The shapes of the silent lane: what layers 3 accept.
pub data SilentShape (m : Message) : Type 0 where
  update_shape :
      safe_str m.message_type ≡ "update"
      → m.requires_response ≡ false
      → is_low_priority (safe_str m.priority) ≡ true
      → SilentShape m
  agreed_shape : safe_str m.message_type ≡ "agreed" → m.requires_response ≡ false → SilentShape m
  digest_shape : safe_str m.message_type ≡ "digest" → SilentShape m
  decision_shape :
      safe_str m.message_type ≡ "decision" → m.requires_response ≡ false → SilentShape m

silent_shape :
    (m : Message) (subj : Text)
    → (classify_routine subj
        (safe_str m.priority)
        (safe_str m.message_type)
        m.requires_response).label
      ≢ escalate
    → SilentShape m
unfolding classify_routine
silent_shape m subj h =
    let t : String = safe_str m.message_type in
    elim (Bool-cases
      (t == "update" && not m.requires_response && is_low_priority (safe_str m.priority))) [
        | inl update ↦
            update_shape (ground (arith, eq_iff t "update")) (ground arith) (ground arith)
        | inr other ↦ elim (Bool-cases (t == "agreed" && not m.requires_response)) [
          | inl agreed ↦ agreed_shape (ground (arith, eq_iff t "agreed")) (ground arith)
          | inr other' ↦ elim (Bool-cases (t == "digest")) [
            | inl digest ↦ digest_shape (ground (arith, eq_iff t "digest"))
            | inr other'' ↦
                decision_shape (ground (arith, eq_iff t "decision"))
                  (ground (arith, eq_iff t "decision"))
          ]
        ]
      ]

module _ (subj : Text) (p t : String) (r : Bool) where
  by_shape_silent :
      (classify_by_shape subj p t r).label ≢ escalate
      → (is_high_priority p ≡ false)
        × (is_escalate_type t ≡ false)
        × ((classify_routine subj p t r).label ≢ escalate)
  unfolding classify_by_shape
  by_shape_silent h = elim (Bool-cases (is_high_priority p)) [
    | inl high ↦ absurd (h (rw high))
    | inr low ↦ elim (Bool-cases (is_escalate_type t)) [
      | inl substantive ↦ absurd (h (rw (low, substantive)))
      | inr routine ↦ (low, routine, rw (low, routine) at h)
    ]
  ]

-- What a message in the silent lane is.
pub record IsSilent (m : Message) : Type 0 where
  pub clean : NoKeyword (haystack m) keyword_layers
  pub not_high : is_high_priority (safe_str m.priority) ≡ false
  pub not_substantive : is_escalate_type (safe_str m.message_type) ≡ false
  pub shape : SilentShape m

-- A message that is not escalated holds no keyword of any category, is not of priority P0 or P1, is
-- no challenge, blocker or counter, and is an update of low priority, an agreement, a digest or a
-- decision, all but the digest with no response required.
pub classify-IsSilent : (m : Message) → (classify m).label ≢ escalate → IsSilent m
unfolding classify
classify-IsSilent m h = elim (Option-cases (find_keyword (haystack m) keyword_layers)) [
  | inl clear ↦
      let (low, routine, shaped) =
        by_shape_silent (lower (safe_text m.subject)) (safe_str m.priority)
          (safe_str m.message_type) m.requires_response (rw clear at h) in
      record {
        clean = find_keyword-none (haystack m) keyword_layers clear;
        not_high = low;
        not_substantive = routine;
        shape = silent_shape m (lower (safe_text m.subject)) shaped;
      }
  | inr ((category, pat), found) ↦ absurd (h (rw found))
]

routine_confidence :
    (subj : Text) (p t : String) (r : Bool)
    → (classify_routine subj p t r).confidence < 50
    → (classify_routine subj p t r).reason ≡ default_hold t p r
unfolding classify_routine
routine_confidence subj p t r h = ground (arith, update_confidence subj)

-- A message classified with a confidence below one half is on the default hold.
pub low_confidence_is_default_hold :
    (m : Message)
    → (classify m).confidence < 50
    → (classify m).reason
      ≡ default_hold (safe_str m.message_type) (safe_str m.priority) m.requires_response
unfolding classify classify_by_shape
low_confidence_is_default_hold m h = ground (
  arith,
  routine_confidence (lower (safe_text m.subject)) (safe_str m.priority) (safe_str m.message_type)
      m.requires_response,
)
