-- ===== src/Bus/Realtime.antt =====
-- nervous_system/agent_messages_realtime.py: what an INSERT sets off. Whether the kill switch is on and
-- what the request for a wake meets are inputs.
pub mod Runs
pub mod Stamps
pub mod Delivers
use wingmen_orchestrator.Prelude.{
  ℕ, Bool, true, false, not, ◌&&◌, ◌||◌, Option, none, some, List, [], ◌∷◌, ◌==◌, nat_eq,
  if◌then◌else◌,
}
use wingmen_orchestrator.Prelude.Texts.{Text, text_eq}
use wingmen_orchestrator.Bus.Wake.{
  should_auto_wake, Request, WakeFile, WakeResult, capped, wake_agent,
}
use wingmen_orchestrator.Bus.Routing.{Message, is_routable}
use wingmen_orchestrator.Bus.Poll.{Bus, Net, is_in, deliver}

-- The state of the notifier, the file of each agent, and whom the operator was told to be at the cap.
pub record Notifier : Type 0 where
  pub bus : Bus
  pub files : Text → WakeFile
  pub capped_agents : List Text

pub record Insert : Type 0 where
  pub id : ℕ
  pub refetch_ok : Bool
  pub auto_wake_enabled : Bool
  pub request : Request
  pub has_bot : Bool
  pub alert_ok : Bool
  pub wake_only : Bool
  pub net : Net

unfoldable pub find_message : ℕ → List Message → Option Message
find_message i [] = none
find_message i (m ∷ ms) = let rest = find_message i ms in if m.id == i then some m else rest

abbrev set_file : Text → WakeFile → (Text → WakeFile) → Text → WakeFile
set_file a f files x = if text_eq x a then f else files x

abbrev is_alert : WakeResult → Bool
is_alert (capped n due) = due
is_alert _ = false

abbrev wake_to : Insert → Notifier → Option Text → Notifier
wake_to e s none = s
wake_to e s (some a) =
    let (result, file) = wake_agent e.request (s.files a) in
    record s {
      files = set_file a file s.files;
      capped_agents =
          if is_alert result && e.has_bot && e.alert_ok
          then a ∷ s.capped_agents
          else s.capped_agents;
    }

-- The doorbell. An exception in it is caught.
unfoldable pub auto_wake : Insert → Message → Notifier → Notifier
auto_wake e m s =
    if e.auto_wake_enabled
      && should_auto_wake m.to_agent m.message_type m.requires_response m.priority m.is_test
    then wake_to e s m.to_agent
    else s

-- The part for Telegram.
abbrev pub forward : Insert → Message → Notifier → Notifier
forward e m s =
    if not (is_routable m) then s else record s { bus = deliver e.has_bot e.net m s.bus }

abbrev pub route_found : Insert → Notifier → Option Message → Notifier
route_found e s none = s
route_found e s (some m) =
    if is_in m.id s.bus.forwarded || is_in m.id s.bus.skipped || m.is_test
    then s
    else let woken = auto_wake e m s in if e.wake_only then woken else forward e m woken

unfoldable pub route_single_message : Insert → List Message → Notifier → Notifier
unfolding find_message
route_single_message e ms s = if e.refetch_ok then route_found e s (find_message e.id ms) else s
