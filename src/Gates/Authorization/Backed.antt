-- ===== src/Gates/Authorization/Backed.antt =====
-- The row behind an authorization.
use mathlib.Core.Path.{subst}
use wingmen_orchestrator.Prelude.{
  ℕ, zero, suc, ◌≡◌, ◌≢◌, ◌<◌, refl, Bool, true, false, not, ◌||◌, ◌⊎◌, inl, inr, Option, none,
  some, List, [], ◌∷◌, any, ◌&&◌, arith, take, is_empty, if◌then◌else◌, Bool-cases, Option-cases,
}
use wingmen_orchestrator.Prelude.Texts.{Text, codes, lower, contains, text_eq, text_eq_lem}
use wingmen_orchestrator.Gates.Authorization.{
  Row, or_blank, is_after, lowered, qualifies, first_qualified, find_verified_authorization,
  is_candidate, select, fetch_candidate_rows, Request, or_else, find_in, verified_authorization,
}

abbrev pub IsIn : Row → List Row → Type 0
IsIn r [] = ⊥
IsIn r (x ∷ rows) = (x ≡ r) ⊎ IsIn r rows

-- One of the words, not empty, stands in the text whatever its case.
abbrev pub Mentions : Text → List Text → Type 0
Mentions text [] = ⊥
Mentions text (p ∷ ps) = ((p ≢ []) × (contains text (lower p) ≡ true)) ⊎ Mentions text ps

pub record IsApproval (chat : Text) (phrases tokens : List Text) (after : ℕ) (r : Row)
    : Type 0 where
  pub is_inbound : lower (or_blank r.direction) ≡ codes "inbound"
  pub is_telegram : lower (or_blank r.channel) ≡ codes "telegram"
  pub of_chat : or_blank r.chat_id ≡ chat
  pub later : (t : ℕ) × (r.created_at ≡ some t) × (after < t)
  pub approves : Mentions (lower (or_blank r.text)) phrases
  pub names_operation : Mentions (lower (or_blank r.text)) tokens

any-Mentions :
    (text : Text) (ps : List Text) → any (contains text) (lowered ps) ≡ true → Mentions text ps
unfolding lowered
any-Mentions text [] h = cc
any-Mentions text ([] ∷ ps) h = inr (any-Mentions text ps h)
any-Mentions text ((c ∷ p) ∷ ps) h = elim (Bool-cases (contains text (lower (c ∷ p)))) [
  | inl e ↦ inl ((λ k. cc), e)
  | inr e ↦ inr (any-Mentions text ps (ground (arith, h, e)))
]

is_after-later :
    (after : ℕ) (o : Option ℕ) → is_after after o ≡ true → (t : ℕ) × (o ≡ some t) × (after < t)
is_after-later after none h = cc
is_after-later after (some t) h = (t, refl, ground (arith, h))

qualifies-IsApproval :
    (chat : Text) (ps ts : List Text) (after : ℕ) (r : Row)
    → qualifies chat (lowered ps) (lowered ts) after r ≡ true
    → IsApproval chat ps ts after r
unfolding qualifies
qualifies-IsApproval chat ps ts after r h =
    let parts =
      tests (text_eq (lower (or_blank r.direction)) (codes "inbound"))
        (text_eq (lower (or_blank r.channel)) (codes "telegram"))
        (text_eq (or_blank r.chat_id) chat) (is_after after r.created_at)
        (any (contains (lower (or_blank r.text))) (lowered ps))
        (any (contains (lower (or_blank r.text))) (lowered ts)) h in
    record {
      is_inbound = text_eq_lem (lower (or_blank r.direction)) (codes "inbound") parts.0;
      is_telegram = text_eq_lem (lower (or_blank r.channel)) (codes "telegram") parts.1;
      of_chat = text_eq_lem (or_blank r.chat_id) chat parts.2;
      later = is_after-later after r.created_at parts.3;
      approves = any-Mentions (lower (or_blank r.text)) ps parts.4;
      names_operation = any-Mentions (lower (or_blank r.text)) ts parts.5;
    }
  where
    tests :
        (a b c d e f : Bool)
        → (a && b && c && d && e && f) ≡ true
        → (a ≡ true) × (b ≡ true) × (c ≡ true) × (d ≡ true) × (e ≡ true) × (f ≡ true)
    tests a b c d e f k = ground (arith, k)

-- The row is in the table, and it is an authorization for the request, from the operator's chat.
abbrev pub Backs : Option Text → Request → Option (List Row) → Row → Type 0
Backs musa q table r =
    (after : ℕ) × (rows : List Row) × (q.after ≡ some after)
    × (table ≡ some rows)
    × IsIn r rows
    × (or_else q.operator_chat_id musa ≢ [])
    × IsApproval (or_else q.operator_chat_id musa) q.approval_phrases q.op_tokens after r

first_qualified-IsIn :
    (chat : Text) (ps ts : List Text) (after : ℕ) (rows : List Row) (r : Row)
    → first_qualified chat ps ts after rows ≡ some r
    → IsIn r rows × (qualifies chat ps ts after r ≡ true)
unfolding first_qualified
first_qualified-IsIn chat ps ts after [] r h = cc
first_qualified-IsIn chat ps ts after (x ∷ rows) r h =
    elim (Bool-cases (qualifies chat ps ts after x)) [
      | inl q ↦
          let e : x ≡ r = same q h in (inl e, subst (λ y. qualifies chat ps ts after y ≡ true) e q)
      | inr q ↦
          let ih = first_qualified-IsIn chat ps ts after rows r (later q h) in (inr ih.0, ih.1)
    ]
  where
    same :
        qualifies chat ps ts after x ≡ true
        → first_qualified chat ps ts after (x ∷ rows) ≡ some r
        → x ≡ r
    same q = rw q (λ k. cc)

    later :
        qualifies chat ps ts after x ≡ false
        → first_qualified chat ps ts after (x ∷ rows) ≡ some r
        → first_qualified chat ps ts after rows ≡ some r
    later q = rw q (λ k. k)

take-IsIn : (n : ℕ) (rows : List Row) (r : Row) → IsIn r (take n rows) → IsIn r rows
take-IsIn zero rows r h = absurd h
take-IsIn (suc n) [] r h = h
take-IsIn (suc n) (x ∷ rows) r (inl e) = inl e
take-IsIn (suc n) (x ∷ rows) r (inr h) = inr (take-IsIn n rows r h)

select-IsIn :
    (chat : Text) (after : ℕ) (rows : List Row) (r : Row)
    → IsIn r (select chat after rows)
    → IsIn r rows
unfolding select
select-IsIn chat after [] r h = h
select-IsIn chat after (x ∷ rows) r h = elim (Bool-cases (is_candidate chat after x)) [
  | inl c ↦ kept (at_kept c h) (λ k. select-IsIn chat after rows r k)
  | inr c ↦ inr (select-IsIn chat after rows r (at_left c h))
]
  where
    at_kept :
        is_candidate chat after x ≡ true
        → IsIn r (select chat after (x ∷ rows))
        → (x ≡ r) ⊎ IsIn r (select chat after rows)
    at_kept c = rw c (λ k. k)

    at_left :
        is_candidate chat after x ≡ false
        → IsIn r (select chat after (x ∷ rows))
        → IsIn r (select chat after rows)
    at_left c = rw c (λ k. k)

    kept :
        (x ≡ r) ⊎ IsIn r (select chat after rows)
        → (IsIn r (select chat after rows) → IsIn r rows)
        → IsIn r (x ∷ rows)
    kept (inl e) ih = inl e
    kept (inr k) ih = inr (ih k)

find-IsIn :
    (chat : Text) (ps ts : List Text) (after : ℕ) (rows : List Row) (r : Row)
    → find_verified_authorization chat ps ts after rows ≡ some r
    → IsIn r rows × (qualifies chat (lowered ps) (lowered ts) after r ≡ true)
unfolding find_verified_authorization
find-IsIn chat ps ts after rows r h =
    first_qualified-IsIn chat (lowered ps) (lowered ts) after rows r
      (not_refused (is_empty chat || is_empty (lowered ps) || is_empty (lowered ts)) h)
  where
    not_refused :
        (b : Bool)
        → (if b then none else first_qualified chat (lowered ps) (lowered ts) after rows) ≡ some r
        → first_qualified chat (lowered ps) (lowered ts) after rows ≡ some r
    not_refused true k = cc
    not_refused false k = k

fetched-IsIn :
    (chat : Text) (after : ℕ) (rows : List Row) (r : Row)
    → IsIn r (fetch_candidate_rows chat after rows)
    → IsIn r rows
unfolding fetch_candidate_rows
fetched-IsIn chat after rows r h =
    select-IsIn chat after rows r (take-IsIn 200 (select chat after rows) r h)

find_in-Backs :
    (musa : Option Text) (q : Request) (table : Option (List Row)) (after : ℕ) (r : Row)
    → q.after ≡ some after
    → or_else q.operator_chat_id musa ≢ []
    → find_in (or_else q.operator_chat_id musa) q after table ≡ some r
    → Backs musa q table r
find_in-Backs musa q none after r e ne k = cc
find_in-Backs musa q (some rows) after r e ne k =
    let chat = or_else q.operator_chat_id musa in
    let f =
      find-IsIn chat q.approval_phrases q.op_tokens after (fetch_candidate_rows chat after rows) r
        k in
    (
      after,
      rows,
      e,
      refl,
      fetched-IsIn chat after rows r f.0,
      ne,
      qualifies-IsApproval chat q.approval_phrases q.op_tokens after r f.1,
    )

-- The tests of the request.
abbrev checked : Text → Request → ℕ → Option (List Row) → Option Row
checked chat q after table =
    if is_empty chat || not q.has_dsn || is_empty q.approval_phrases || is_empty q.op_tokens
    then none
    else find_in chat q after table

checked-passed :
    (chat : Text) (q : Request) (after : ℕ) (table : Option (List Row)) (r : Row)
    → checked chat q after table ≡ some r
    → (chat ≢ []) × (find_in chat q after table ≡ some r)
checked-passed [] q after table r h = cc
checked-passed (c ∷ chat) q after table r h =
    ((λ e. cc), passed (not q.has_dsn || is_empty q.approval_phrases || is_empty q.op_tokens) h)
  where
    passed :
        (b : Bool)
        → (if b then none else find_in (c ∷ chat) q after table) ≡ some r
        → find_in (c ∷ chat) q after table ≡ some r
    passed true k = cc
    passed false k = k

-- What a request finds is an inbound Telegram row of the table from the operator's chat, later than the
-- request, whose text has an approval phrase and a token of the operation.
pub verified_authorization-Backs :
    (musa : Option Text) (q : Request) (table : Option (List Row)) (r : Row)
    → verified_authorization musa q table ≡ some r
    → Backs musa q table r
unfolding verified_authorization
verified_authorization-Backs musa q table r h = elim (Option-cases q.after) [
  | inl e ↦ absurd (untimed e h)
  | inr (after, e) ↦
      let k = checked-passed (or_else q.operator_chat_id musa) q after table r (timed after e h) in
      find_in-Backs musa q table after r e k.0 k.1
]
  where
    untimed : q.after ≡ none → verified_authorization musa q table ≡ some r → ⊥
    untimed e = rw e (λ k. cc)

    timed :
        (after : ℕ)
        → q.after ≡ some after
        → verified_authorization musa q table ≡ some r
        → checked (or_else q.operator_chat_id musa) q after table ≡ some r
    timed after e = rw e (λ k. k)
