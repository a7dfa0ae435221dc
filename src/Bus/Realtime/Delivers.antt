-- ===== src/Bus/Realtime/Delivers.antt =====
-- A poll brings through what it can.
use wingmen_orchestrator.Prelude.{
  ℕ, ◌≡◌, ◌⊎◌, inl, inr, Bool, true, false, not, ◌&&◌, none, List, [], ◌∷◌, All, if◌then◌else◌,
  nat_eq, arith, Bool-cases, Option-cases, if_holds,
}
use wingmen_orchestrator.Bus.Wake.{is_p3}
use wingmen_orchestrator.Bus.Routing.{Message, has_subject, is_routable, format_telegram}
use wingmen_orchestrator.Bus.Routing.Forms.{is_some, format_telegram-routable}
use wingmen_orchestrator.Bus.Poll.{
  Bus, Net, is_in, is_before, is_selected, insert_sorted, selected, deliver, raises, deliver_each,
  poll_agent_messages,
}
use wingmen_orchestrator.Bus.Realtime.Runs.{selected-All}

abbrev pub Has : Message → List Message → Type 0
Has m [] = ⊥
Has m (n ∷ ns) = (n ≡ m) ⊎ Has m ns

insert_sorted-Has :
    (m n : Message) (ns : List Message) → (n ≡ m) ⊎ Has m ns → Has m (insert_sorted n ns)
unfolding insert_sorted
insert_sorted-Has m n [] (inl e) = inl e
insert_sorted-Has m n [] (inr h) = absurd h
insert_sorted-Has m n (x ∷ ns) (inl e) =
    if_holds (Has m) (is_before n x) (n ∷ x ∷ ns) (x ∷ insert_sorted n ns) (λ b. inl e)
      (λ b. inr (insert_sorted-Has m n ns (inl e)))
insert_sorted-Has m n (x ∷ ns) (inr (inl e)) =
    if_holds (Has m) (is_before n x) (n ∷ x ∷ ns) (x ∷ insert_sorted n ns) (λ b. inr (inl e))
      (λ b. inl e)
insert_sorted-Has m n (x ∷ ns) (inr (inr h)) =
    if_holds (Has m) (is_before n x) (n ∷ x ∷ ns) (x ∷ insert_sorted n ns) (λ b. inr (inr h))
      (λ b. inr (insert_sorted-Has m n ns (inr h)))

selected-Has :
    (m : Message) (is_unread : Message → Bool) (b : Bus) (ms : List Message)
    → is_selected is_unread b m ≡ true
    → Has m ms
    → Has m (selected is_unread b ms)
unfolding selected
selected-Has m is_unread b [] s h = h
selected-Has m is_unread b (n ∷ ms) s (inl e) =
    let c : is_selected is_unread b n ≡ true = rw e s in
    rw c (insert_sorted-Has m n (selected is_unread b ms) (inl e))
selected-Has m is_unread b (n ∷ ms) s (inr h) = elim (Bool-cases (is_selected is_unread b n)) [
  | inl c ↦
      rw c
        (insert_sorted-Has m n (selected is_unread b ms) (inr (selected-Has m is_unread b ms s h)))
  | inr c ↦ rw c (selected-Has m is_unread b ms s h)
]

-- Once forwarded and sent, always.
abbrev Through : ℕ → Bus → Type 0
Through i b = (is_in i b.forwarded ≡ true) × (is_in i b.sent ≡ true)

-- The log knows the message only if it was sent.
abbrev Told : ℕ → Bus → Type 0
Told i b = (is_in i b.log ≡ false) ⊎ (is_in i b.sent ≡ true)

deliver-Told :
    (i : ℕ) (net : Net) (n : Message) (b : Bus) → Told i b → Told i (deliver true net n b)
unfolding deliver
deliver-Told i net n b h = elim (Option-cases (format_telegram n)) [
  | inl e ↦ rw e (ground (arith, h))
  | inr (text, e) ↦ rw e (ground (arith, h))
]

deliver-Through :
    (i : ℕ) (net : Net) (n : Message) (b : Bus) → Through i b → Through i (deliver true net n b)
unfolding deliver
deliver-Through i net n b h = elim (Option-cases (format_telegram n)) [
  | inl e ↦ rw e (ground (arith, h))
  | inr (text, e) ↦ rw e (ground (arith, h))
]

-- The world in which the loop goes on.
abbrev next_of : Net → Message → Bus → Bus
next_of net n b = if is_routable n then deliver true net n b else b

next-Through :
    (i : ℕ) (net : Net) (n : Message) (b : Bus) → Through i b → Through i (next_of net n b)
next-Through i net n b h =
    if_holds (Through i) (is_routable n) _ _ (λ e. deliver-Through i net n b h) (λ e. h)

next-Told : (i : ℕ) (net : Net) (n : Message) (b : Bus) → Told i b → Told i (next_of net n b)
next-Told i net n b h =
    if_holds (Told i) (is_routable n) _ _ (λ e. deliver-Told i net n b h) (λ e. h)

rest-Through :
    (i : ℕ) (net : Net) (ns : List Message) (b : Bus)
    → Through i b
    → Through i (deliver_each true net ns b)
unfolding deliver_each
rest-Through i net [] b h = h
rest-Through i net (n ∷ ns) b h =
    let kept = next-Through i net n b h in
    if_holds (Through i) (is_routable n && raises true net n b) _ _ (λ e. kept)
      (λ e. rest-Through i net ns (next_of net n b) kept)

-- The calls for the message succeed.
abbrev pub IsServed : ℕ → Net → Type 0
IsServed i net = (net.send_ok i ≡ true) × (net.mark_ok i ≡ true)

shown_none :
    (m : Message)
    → format_telegram m ≡ none
    → is_p3 m.priority ≡ false
    → is_some (format_telegram m) ≡ not (is_p3 m.priority)
    → ⊥
shown_none m e p h = ground (arith, e, p, h)

delivered-Through :
    (m : Message) (net : Net) (b : Bus)
    → has_subject m ≡ true
    → is_routable m ≡ true
    → is_p3 m.priority ≡ false
    → IsServed m.id net
    → Told m.id b
    → Through m.id (deliver true net m b)
unfolding deliver
delivered-Through m net b s r p q h = elim (Option-cases (format_telegram m)) [
  | inl e ↦ let shown = format_telegram-routable m r in absurd (shown_none m e p shown)
  | inr (text, e) ↦ rw e (ground (arith, s, q, h))
]

abbrev pub HasSubject : Message → Type 0
HasSubject n = has_subject n ≡ true

selected-HasSubject :
    (is_unread : Message → Bool) (b : Bus) (ms : List Message)
    → All HasSubject ms
    → All (λ n. HasSubject n × (n.is_test ≡ false)) (selected is_unread b ms)
selected-HasSubject is_unread b ms t =
    selected-All (λ c. Unit {0}) (λ net. Unit {0}) HasSubject (λ has_bot net n c q r e f p. tt)
      is_unread b ms t

goes_on :
    (net : Net) (n : Message) (b : Bus)
    → HasSubject n
    → (is_routable n && raises true net n b) ≡ true
    → ⊥
goes_on net n b s e = ground (arith, s, e)

each-Through :
    (m : Message) (net : Net) (ns : List Message) (b : Bus)
    → is_routable m ≡ true
    → is_p3 m.priority ≡ false
    → IsServed m.id net
    → All (λ n. HasSubject n × (n.is_test ≡ false)) ns
    → Told m.id b
    → Has m ns
    → Through m.id (deliver_each true net ns b)
unfolding deliver_each
each-Through m net [] b r p q s h a = absurd a
each-Through m net (n ∷ ns) b r p q s h (inl same) =
    if_holds (Through m.id) (is_routable n && raises true net n b) _ _
      (λ e. absurd (goes_on net n b s.0.0 e)) (λ e. rest-Through m.id net ns (next_of net n b) told)
  where
    routable : is_routable n ≡ true
    routable = rw same r

    told : Through m.id (next_of net n b)
    told = rw (routable, same) (delivered-Through m net b (rw (← same) s.0.0) r p q h)
each-Through m net (n ∷ ns) b r p q s h (inr a) =
    if_holds (Through m.id) (is_routable n && raises true net n b) _ _
      (λ e. absurd (goes_on net n b s.0.0 e))
      (λ e. each-Through m net ns (next_of net n b) r p q s.1 (next-Told m.id net n b h) a)

-- After a poll with a bot, a message that the query finds, routable, not P3 and not yet in the log has been
-- sent and stamped as forwarded, whatever calls fail for the other messages, if no message has a NULL subject
-- and for it the send and the stamp succeed.
pub poll_delivers :
    (m : Message) (net : Net) (is_unread : Message → Bool) (ms : List Message) (b : Bus)
    → Has m ms
    → All HasSubject ms
    → is_selected is_unread b m ≡ true
    → is_routable m ≡ true
    → is_p3 m.priority ≡ false
    → IsServed m.id net
    → is_in m.id b.log ≡ false
    → (is_in m.id (poll_agent_messages true true net is_unread ms b).forwarded ≡ true)
      × (is_in m.id (poll_agent_messages true true net is_unread ms b).sent ≡ true)
unfolding poll_agent_messages
poll_delivers m net is_unread ms b a t s r p q l =
    each-Through m net (selected is_unread b ms) b r p q (selected-HasSubject is_unread b ms t)
      (inl l) (selected-Has m is_unread b ms s a)
