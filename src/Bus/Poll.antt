-- ===== src/Bus/Poll.antt =====
-- nervous_system/agent_messages_poll.py: the loop of the poll. The columns that the notifier stamps are
-- the lists of the stamped ids, and the keys of notification_log are the ids of the messages.
pub mod Nulls
use wingmen_orchestrator.Prelude.{
  ℕ, Bool, true, false, not, ◌&&◌, ◌||◌, Option, none, some, List, [], ◌∷◌, any, ltb, ◌==◌, nat_eq,
  if◌then◌else◌,
}
use wingmen_orchestrator.Bus.Wake.{Priority, p0, p1, p2, p3}
use wingmen_orchestrator.Bus.Routing.{Message, has_subject, Telegram, is_routable, format_telegram}

pub record Bus : Type 0 where
  pub forwarded : List ℕ
  pub skipped : List ℕ
  pub log : List ℕ
  pub sent : List ℕ

-- Which calls succeed for a message: the look-up of its key, the send, the row of the log, the stamp.
pub record Net : Type 0 where
  pub lookup_ok : ℕ → Bool
  pub send_ok : ℕ → Bool
  pub log_ok : ℕ → Bool
  pub mark_ok : ℕ → Bool

abbrev pub is_in : ℕ → List ℕ → Bool
is_in i is = any (λ k. k == i) is

abbrev add_if : Bool → ℕ → List ℕ → List ℕ
add_if ok i is = if ok then i ∷ is else is

abbrev pub mark_forwarded : Net → ℕ → Bus → Bus
mark_forwarded net i b = record b { forwarded = add_if (net.mark_ok i) i b.forwarded }

abbrev pub mark_skipped : Net → ℕ → Bus → Bus
mark_skipped net i b = record b { skipped = add_if (net.mark_ok i) i b.skipped }

abbrev pub log_notification : Net → ℕ → Bus → Bus
log_notification net i b = record b { log = add_if (net.log_ok i) i b.log }

-- A look-up that fails is as one that finds nothing.
abbrev pub already_notified : Net → ℕ → Bus → Bool
already_notified net i b = net.lookup_ok i && is_in i b.log

abbrev pub notify : Bool → Net → Message → Bus → Option Telegram → Bus
notify has_bot net m b none = if m.requires_response then b else mark_skipped net m.id b
notify has_bot net m b (some text) =
    if has_bot && not (net.send_ok m.id)
    then b
    else let told = record b { sent = add_if has_bot m.id b.sent } in
      if has_subject m then mark_forwarded net m.id (log_notification net m.id told) else told

-- subject[:100] of a subject that is NULL, which the log of a message that has been told of asks for
abbrev pub raises : Bool → Net → Message → Bus → Bool
raises has_bot net m b =
    not (already_notified net m.id b)
    && (elim (format_telegram m) [ none ↦ false | some text ↦ true ])
    && not (has_bot && not (net.send_ok m.id))
    && not (has_subject m)

-- What is done with a message that is routable.
unfoldable pub deliver : Bool → Net → Message → Bus → Bus
deliver has_bot net m b =
    if already_notified net m.id b
    then mark_forwarded net m.id b
    else notify has_bot net m b (format_telegram m)

abbrev rank : Priority → ℕ
rank p0 = 0
rank p1 = 1
rank p2 = 2
rank p3 = 3

-- ORDER BY priority, requires_response DESC, created_at
abbrev pub is_before : Message → Message → Bool
is_before m n =
    ltb (rank m.priority) (rank n.priority)
    || rank m.priority == rank n.priority
      && (m.requires_response && not n.requires_response
          || (if m.requires_response then n.requires_response else not n.requires_response)
            && ltb m.created_at n.created_at)

unfoldable pub insert_sorted : Message → List Message → List Message
insert_sorted m [] = m ∷ []
insert_sorted m (n ∷ ns) =
    let rest = n ∷ insert_sorted m ns in if is_before m n then m ∷ n ∷ ns else rest

-- `is_unread` says which messages are there with a NULL read_at.
abbrev pub is_selected : (Message → Bool) → Bus → Message → Bool
is_selected is_unread b m =
    is_unread m && not (is_in m.id b.forwarded) && not (is_in m.id b.skipped) && not m.is_test

unfoldable pub selected : (Message → Bool) → Bus → List Message → List Message
unfolding insert_sorted
selected is_unread b [] = []
selected is_unread b (m ∷ ms) =
    let rest = selected is_unread b ms in
    if is_selected is_unread b m then insert_sorted m rest else rest

-- An exception ends the loop.
unfoldable pub deliver_each : Bool → Net → List Message → Bus → Bus
unfolding deliver
deliver_each has_bot net [] b = b
deliver_each has_bot net (m ∷ ms) b =
    let next = if is_routable m then deliver has_bot net m b else b in
    let rest = deliver_each has_bot net ms next in
    if is_routable m && raises has_bot net m b then next else rest

-- With no answer to the query nothing is done.
unfoldable pub poll_agent_messages : Bool → Bool → Net → (Message → Bool) → List Message → Bus → Bus
unfolding selected deliver_each
poll_agent_messages query_ok has_bot net is_unread ms b =
    if query_ok then deliver_each has_bot net (selected is_unread b ms) b else b
