-- ===== src/Bus/Samples.antt =====
-- Sample messages and wakes.
use wingmen_orchestrator.Prelude.{
  ℕ, ◌≤◌, ◌≡◌, refl, inl, inr, true, false, none, some, List, [], ◌∷◌, ltb,
}
use wingmen_orchestrator.Prelude.Texts.{codes}
use wingmen_orchestrator.Bus.Wake.{
  Priority, p2, p3, Request, WakeFile, within, latest, cap_state, wake_agent, should_auto_wake,
}
use wingmen_orchestrator.Bus.Wake.Recent.{request, requests}
use wingmen_orchestrator.Bus.Wake.Limits.{after}
use wingmen_orchestrator.Bus.Routing.{
  Message, is_banned, is_routed_target, is_cc, is_from_cai, is_cc_to_cc, is_routable,
  format_telegram_body, format_telegram,
}
use wingmen_orchestrator.Bus.Poll.{
  Bus, Net, is_in, insert_sorted, selected, deliver, deliver_each, poll_agent_messages,
}
use wingmen_orchestrator.Bus.Poll.Nulls.{polls, null_subject_stops}
use wingmen_orchestrator.Bus.Realtime.{
  Notifier, Insert, find_message, auto_wake, route_single_message,
}
use wingmen_orchestrator.Bus.Realtime.Runs.{Event, polled, inserted, run}
use wingmen_orchestrator.Bus.Realtime.Stamps.{IsHonest, count, run-IsHonest, run_at_most_one}
use wingmen_orchestrator.Bus.Realtime.Delivers.{poll_delivers}

abbrev ask : ℕ → Request
ask now = record { now = now; session = some (codes "lane"); pane_busy = false; dry_run = false }

abbrev file : WakeFile
file = record { wakes = []; cap_alerted = 0 }

abbrev asks : List Request
asks =
    ask 1000
    ∷ ask 1010
    ∷ ask 1050
    ∷ ask 1100
    ∷ ask 1150
    ∷ ask 1200
    ∷ ask 1250
    ∷ ask 1260
    ∷ ask 1310
    ∷ []

-- The second is debounced, and the cap holds until the first wake is 300 seconds old.
asks_test : (after asks file).woken ≡ 1310 ∷ 1200 ∷ 1150 ∷ 1100 ∷ 1050 ∷ 1000 ∷ []
unfolding requests request wake_agent cap_state within latest
asks_test = refl

abbrev message : ℕ → Priority → Message
message id priority = record {
  id = id;
  from_agent = codes "cc-ihsanos-1";
  to_agent = some (codes "cai");
  message_type = codes "blocker";
  subject = some (codes "CC-UPDATE-1");
  body = codes "stuck";
  requires_response = false;
  priority = priority;
  is_test = false;
  created_at = id;
}

-- All calls succeed but the send of message 7.
abbrev net : Net
net = record {
  lookup_ok = λ i. true;
  send_ok = λ i. ltb i 7;
  log_ok = λ i. true;
  mark_ok = λ i. true;
}

abbrev fresh : Bus
fresh = record { forwarded = []; skipped = []; log = []; sent = [] }

abbrev notifier : Notifier
notifier = record { bus = fresh; files = λ a. file; capped_agents = [] }

abbrev messages : List Message
messages = message 7 p2 ∷ message 2 p3 ∷ message 1 p2 ∷ []

abbrev insert_1 : Insert
insert_1 = record {
  id = 1;
  refetch_ok = true;
  auto_wake_enabled = true;
  request = ask 1000;
  has_bot = true;
  alert_ok = true;
  wake_only = false;
  net = net;
}

abbrev events : List Event
events = inserted insert_1 ∷ polled true true net (λ m. true) ∷ []

-- Message 1 is told of, 2 put aside, and 7 left for the next poll.
events_test :
    (run messages events notifier).bus
    ≡ record { forwarded = 1 ∷ []; skipped = 2 ∷ []; log = 1 ∷ []; sent = 1 ∷ [] }
unfolding run poll_agent_messages selected insert_sorted deliver_each deliver is_routable is_banned
    is_routed_target is_cc is_from_cai is_cc_to_cc format_telegram format_telegram_body
    route_single_message find_message auto_wake should_auto_wake
events_test = refl

run-IsHonest_example : IsHonest (message 1 p2) (run messages events notifier).bus
run-IsHonest_example =
    run-IsHonest (message 1 p2) messages events notifier (inl refl, (inl refl, (inr refl, tt)))
      (record { forwarded = inl refl; sent = inl refl; logged = inl refl; skipped = inl refl })

run_at_most_one_example : count 1 (run messages events notifier).bus.sent ≤ 1
run_at_most_one_example =
    run_at_most_one 1 messages events notifier (inl refl, (inl refl, (inr refl, tt)))
      ((refl, refl), ((refl, refl), tt)) refl

routable_1 : is_routable (message 1 p2) ≡ true
unfolding is_routable is_banned is_routed_target is_cc is_from_cai is_cc_to_cc
routable_1 = refl

poll_delivers_example :
    (is_in 1 (poll_agent_messages true true net (λ m. true) messages fresh).forwarded ≡ true)
    × (is_in 1 (poll_agent_messages true true net (λ m. true) messages fresh).sent ≡ true)
poll_delivers_example =
    poll_delivers (message 1 p2) net (λ m. true) messages fresh (inr (inr (inl refl)))
      (refl, (refl, (refl, tt))) refl routable_1 refl (refl, refl) refl

-- As message 1, without a subject.
abbrev nameless : Message
nameless = record (message 1 p2) { subject = none }

null_subject_stops_example :
    polls 3 net (λ m. true) (message 3 p2 ∷ nameless ∷ []) fresh
    ≡ record fresh { sent = 1 ∷ 1 ∷ 1 ∷ [] }
unfolding selected insert_sorted is_routable is_banned is_routed_target is_cc is_from_cai
    is_cc_to_cc
null_subject_stops_example =
    null_subject_stops 3 net nameless (message 3 p2 ∷ []) (λ m. true) (message 3 p2 ∷ nameless ∷ [])
      fresh refl (record { routable = refl; not_p3 = refl; no_subject = refl; sends = refl }) refl
