-- ===== src/LongCaller/Endpoint.antt =====
-- `MacStudioEndpointState` of watchdog.py
pub mod Outages
use wingmen_orchestrator.Prelude.{
  ℕ, ◌+◌, Bool, true, false, Option, none, some, List, [], ◌∷◌, leb, if◌then◌else◌,
}

pub record EndpointState : Type 0 where
  pub alert_after_seconds : ℕ
  pub first_failure_at : Option ℕ
  pub alerted : Bool

-- __init__
abbrev pub fresh : ℕ → EndpointState
fresh n = record { alert_after_seconds = n; first_failure_at = none; alerted = false }

abbrev probe_down : Option ℕ → ℕ → EndpointState → Bool × EndpointState
probe_down none now s = (false, record s { first_failure_at = some now })
probe_down (some first) now s =
    if s.alerted
    then (false, s)
    else if leb (first + s.alert_after_seconds) now
    then (true, record s { alerted = true })
    else (false, s)

-- The result says whether the probe made a transition.
unfoldable pub record_probe : Bool → ℕ → EndpointState → Bool × EndpointState
record_probe true now s =
    if s.alerted
    then (true, record s { first_failure_at = none; alerted = false })
    else (false, record s { first_failure_at = none })
record_probe false now s = probe_down s.first_failure_at now s

pub data Notice : Type 0 where
  unreachable back_online : Notice

-- `_probe_mac_studio` sends a notice at a transition, by the state that it has led to.
abbrev pub notice_of : Bool × EndpointState → List Notice → List Notice
notice_of (changed, s) rest =
    if changed then (if s.alerted then unreachable else back_online) ∷ rest else rest

-- The notices of a sequence of probes of one endpoint.
unfoldable pub probe_all : List (Bool × ℕ) → EndpointState → List Notice
probe_all [] s = []
probe_all ((alive, now) ∷ ps) s =
    notice_of (record_probe alive now s) (probe_all ps (record_probe alive now s).1)
