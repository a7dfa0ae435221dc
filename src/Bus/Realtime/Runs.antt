-- ===== src/Bus/Realtime/Runs.antt =====
-- Polls and insertions in any order: what each delivery keeps, they keep.
use wingmen_orchestrator.Prelude.{
  ℕ, ◌≡◌, Bool, true, false, ◌&&◌, ◌||◌, some, List, [], ◌∷◌, All, ◌==◌, nat_eq, inl, inr, arith,
  Bool-cases, Option-cases, if_holds, if◌then◌else◌,
}
use wingmen_orchestrator.Bus.Routing.{Message, is_routable}
use wingmen_orchestrator.Bus.Poll.{
  Bus, Net, is_in, is_before, is_selected, insert_sorted, selected, deliver, raises, deliver_each,
  poll_agent_messages,
}
use wingmen_orchestrator.Bus.Realtime.{
  Notifier, Insert, find_message, auto_wake, forward, route_found, route_single_message,
}

pub data Event : Type 0 where
  polled : Bool → Bool → Net → (Message → Bool) → Event
  inserted : Insert → Event

abbrev pub net_of : Event → Net
net_of (polled _ _ net _) = net
net_of (inserted e) = e.net

unfoldable pub run : List Message → List Event → Notifier → Notifier
unfolding poll_agent_messages route_single_message
run ms [] s = s
run ms (polled query_ok has_bot net is_unread ∷ es) s =
    run ms es (record s { bus = poll_agent_messages query_ok has_bot net is_unread ms s.bus })
run ms (inserted e ∷ es) s = run ms es (route_single_message e ms s)

auto_wake-bus : (e : Insert) (m : Message) (s : Notifier) → (auto_wake e m s).bus ≡ s.bus
unfolding auto_wake
auto_wake-bus e m s = elim (Option-cases m.to_agent) [
  | inl o ↦ rw o (ground arith)
  | inr (a, o) ↦ rw o (ground arith)
]

-- `P` is kept by a delivery of a message for which `R` holds, over calls as `Q` says.
module _ (P : Bus → Type 0) (Q : Net → Type 0) (R : Message → Type 0)
    (keeps : (has_bot : Bool) (net : Net) (n : Message) (b : Bus)
      → Q net
      → R n
      → is_routable n ≡ true
      → n.is_test ≡ false
      → P b
      → P (deliver has_bot net n b)) where
  abbrev Fit : Message → Type 0
  Fit n = R n × (n.is_test ≡ false)

  insert_sorted-All :
      (m : Message) (ns : List Message) → Fit m → All Fit ns → All Fit (insert_sorted m ns)
  unfolding insert_sorted
  insert_sorted-All m [] h a = (h, tt)
  insert_sorted-All m (n ∷ ns) h a = elim (Bool-cases (is_before m n)) [
    | inl e ↦ rw e (h, a)
    | inr e ↦ rw e (a.0, insert_sorted-All m ns h a.1)
  ]

  pub selected-All :
      (is_unread : Message → Bool) (b : Bus) (ms : List Message)
      → All R ms
      → All Fit (selected is_unread b ms)
  unfolding selected
  selected-All is_unread b [] a = tt
  selected-All is_unread b (m ∷ ms) a = elim (Bool-cases (is_selected is_unread b m)) [
    | inl e ↦ rw e (
        insert_sorted-All m (selected is_unread b ms) (a.0, ground (arith, e))
          (selected-All is_unread b ms a.1))
    | inr e ↦ rw e (selected-All is_unread b ms a.1)
  ]

  pub deliver_each-keeps :
      (has_bot : Bool) (net : Net) (ns : List Message) (b : Bus)
      → Q net
      → All Fit ns
      → P b
      → P (deliver_each has_bot net ns b)
  unfolding deliver_each
  deliver_each-keeps has_bot net [] b q a p = p
  deliver_each-keeps has_bot net (n ∷ ns) b q a p =
      if_holds P (is_routable n && raises has_bot net n b) _ _ (λ e. kept)
        (λ e.
          deliver_each-keeps has_bot net ns (if is_routable n then deliver has_bot net n b else b) q
            a.1 kept)
    where
      kept : P (if is_routable n then deliver has_bot net n b else b)
      kept = if_holds P (is_routable n) _ _ (λ e. keeps has_bot net n b q a.0.0 e a.0.1 p) (λ e. p)

  pub poll-keeps :
      (query_ok has_bot : Bool) (net : Net) (is_unread : Message → Bool) (ms : List Message)
      (b : Bus)
      → Q net
      → All R ms
      → P b
      → P (poll_agent_messages query_ok has_bot net is_unread ms b)
  unfolding poll_agent_messages
  poll-keeps false has_bot net is_unread ms b q a p = p
  poll-keeps true has_bot net is_unread ms b q a p =
      deliver_each-keeps has_bot net (selected is_unread b ms) b q (selected-All is_unread b ms a) p

  find_message-R :
      (i : ℕ) (ms : List Message) (m : Message) → All R ms → find_message i ms ≡ some m → R m
  unfolding find_message
  find_message-R i [] m a e = cc
  find_message-R i (n ∷ ms) m a e = elim (Bool-cases (n.id == i)) [
    | inl same ↦ found n m a.0 (ground (arith, same, e))
    | inr other ↦ find_message-R i ms m a.1 (ground (arith, other, e))
  ]
    where
      found : (n m : Message) → R n → n ≡ m → R m
      found n m r same = rw (← same) r

  forward-keeps :
      (e : Insert) (s : Notifier) (m : Message)
      → Q e.net
      → R m
      → m.is_test ≡ false
      → P s.bus
      → P (forward e m s).bus
  forward-keeps e s m q r t p = elim (Bool-cases (is_routable m)) [
    | inl y ↦ rw y (keeps e.has_bot e.net m s.bus q r y t p)
    | inr n ↦ rw n p
  ]

  found-keeps :
      (e : Insert) (s : Notifier) (m : Message)
      → Q e.net
      → R m
      → P s.bus
      → P (route_found e s (some m)).bus
  found-keeps e s m q r p =
      if_holds (λ (t : Notifier). P t.bus)
        (is_in m.id s.bus.forwarded || is_in m.id s.bus.skipped || m.is_test) s
        (if e.wake_only then auto_wake e m s else forward e m (auto_wake e m s)) (λ h. p)
        (λ h.
          if_holds (λ (t : Notifier). P t.bus) e.wake_only _ _ (λ w. same)
            (λ w. forward-keeps e (auto_wake e m s) m q r (ground (arith, h)) same))
    where
      same : P (auto_wake e m s).bus
      same = rw (auto_wake-bus e m s) p

  route-keeps :
      (e : Insert) (ms : List Message) (s : Notifier)
      → Q e.net
      → All R ms
      → P s.bus
      → P (route_single_message e ms s).bus
  unfolding route_single_message
  route-keeps e ms s q a p =
      if_holds (λ (t : Notifier). P t.bus) e.refetch_ok _ _
        (λ h. elim (Option-cases (find_message e.id ms)) [
          | inl gone ↦ rw gone p
          | inr (m, found) ↦ rw found (found-keeps e s m q (find_message-R e.id ms m a found) p)
        ])
        (λ h. p)

  pub run-keeps :
      (ms : List Message) (es : List Event) (s : Notifier)
      → All R ms
      → All (λ e. Q (net_of e)) es
      → P s.bus
      → P (run ms es s).bus
  unfolding run
  run-keeps ms [] s a q p = p
  run-keeps ms (polled query_ok has_bot net is_unread ∷ es) s a q p =
      run-keeps ms es
        (record s { bus = poll_agent_messages query_ok has_bot net is_unread ms s.bus }) a q.1
        (poll-keeps query_ok has_bot net is_unread ms s.bus q.0 a p)
  run-keeps ms (inserted e ∷ es) s a q p =
      run-keeps ms es (route_single_message e ms s) a q.1 (route-keeps e ms s q.0 a p)
