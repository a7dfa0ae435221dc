-- ===== src/Bus/Poll/Nulls.antt =====
-- What a NULL subject does to the polls.
use wingmen_orchestrator.Prelude.{
  ℕ, zero, suc, ◌≡◌, ◌∙◌, refl, ap, Bool, true, false, not, none, List, [], ◌∷◌, arith, Bool-cases,
  Option-cases, inl, inr,
}
use wingmen_orchestrator.Bus.Wake.{is_p3}
use wingmen_orchestrator.Bus.Routing.{Message, has_subject, is_routable, format_telegram}
use wingmen_orchestrator.Bus.Routing.Forms.{is_some, format_telegram-routable}
use wingmen_orchestrator.Bus.Poll.{
  Bus, Net, is_in, selected, deliver, deliver_each, poll_agent_messages,
}

-- What is sent has no bearing on what the query finds.
selected-sent :
    (is_unread : Message → Bool) (b : Bus) (ids : List ℕ) (ms : List Message)
    → selected is_unread (record b { sent = ids }) ms ≡ selected is_unread b ms
unfolding selected
selected-sent is_unread b ids [] = refl
selected-sent is_unread b ids (m ∷ ms) = rw (selected-sent is_unread b ids ms) refl

-- The first row that the query gives: it would be told of, but has no subject.
pub record IsNull (net : Net) (m : Message) : Type 0 where
  pub routable : is_routable m ≡ true
  pub not_p3 : is_p3 m.priority ≡ false
  pub no_subject : has_subject m ≡ false
  pub sends : net.send_ok m.id ≡ true

is_shown :
    (m : Message)
    → is_some (format_telegram m) ≡ not (is_p3 m.priority)
    → is_p3 m.priority ≡ false
    → format_telegram m ≡ none
    → ⊥
is_shown m e p n = ground (arith, e, p, n)

stopped :
    (net : Net) (m : Message) (rest : List Message) (b : Bus)
    → IsNull net m
    → is_in m.id b.log ≡ false
    → deliver_each true net (m ∷ rest) b ≡ record b { sent = m.id ∷ b.sent }
unfolding deliver_each deliver
stopped net m rest b h l = elim (Option-cases (format_telegram m)) [
  | inl n ↦ absurd (is_shown m (format_telegram-routable m h.routable) h.not_p3 n)
  | inr (text, e) ↦ elim (Bool-cases (net.lookup_ok m.id)) [
    | inl k ↦ rw (h.routable, l, e, h.sends, h.no_subject, k) refl
    | inr k ↦ rw (h.routable, l, e, h.sends, h.no_subject, k) refl
  ]
]

-- That many polls, all with a bot, over the same rows.
unfoldable pub polls : ℕ → Net → (Message → Bool) → List Message → Bus → Bus
unfolding poll_agent_messages
polls zero net is_unread ms b = b
polls (suc k) net is_unread ms b =
    polls k net is_unread ms (poll_agent_messages true true net is_unread ms b)

abbrev pub again : ℕ → ℕ → List ℕ → List ℕ
again zero i is = is
again (suc k) i is = again k i (i ∷ is)

-- Where the first row that the query finds is routable, not P3 and not yet in the log, and has a NULL subject,
-- each further poll whose send of it succeeds sends it once more, without a row in the log or a stamp, and does
-- nothing for any other message.
pub null_subject_stops :
    (k : ℕ) (net : Net) (m : Message) (rest : List Message) (is_unread : Message → Bool)
    (ms : List Message) (b : Bus)
    → selected is_unread b ms ≡ m ∷ rest
    → IsNull net m
    → is_in m.id b.log ≡ false
    → polls k net is_unread ms b ≡ record b { sent = again k m.id b.sent }
unfolding polls poll_agent_messages
null_subject_stops zero net m rest is_unread ms b e h l = refl
null_subject_stops (suc k) net m rest is_unread ms b e h l =
    let sent_now = record b { sent = m.id ∷ b.sent } in
    let one = ap (λ ns. deliver_each true net ns b) e ∙ stopped net m rest b h l in
    ap (λ c. polls k net is_unread ms c) one
    ∙ null_subject_stops k net m rest is_unread ms sent_now
        (selected-sent is_unread b (m.id ∷ b.sent) ms ∙ e) h l
