-- ===== src/Lease/FleetHealth/Takeover.antt =====
-- Who can take or reclaim the watchdog lease, and when.
use wingmen_orchestrator.Prelude.{
  ℕ, ◌+◌, ◌<◌, ◌≤◌, String, ◌≡◌, ◌≢◌, Option, none, some, List, [], ◌∷◌, All, arith, eq_iff,
}
use wingmen_orchestrator.Lease.Row.{Lease}
use wingmen_orchestrator.Lease.FleetHealth.{cmd_take, cmd_renew, cmd_reclaim, hub_agent_id}

-- The hub's dead-man reclaim, with a reason, of a row that another agent holds, exits with 0 exactly
-- when that row has expired, and otherwise exits with 3.
pub cmd_reclaim_iff_expired :
    (seen r : Lease) (h host reason : String) (now : ℕ)
    → r.holder ≡ some h
    → h ≢ hub_agent_id
    → reason ≢ ""
    → ((cmd_reclaim (some seen) (some r) none host now (some reason)).status ≡ 0
        → r.renewed_at + r.ttl_seconds < now)
      × ((cmd_reclaim (some seen) (some r) none host now (some reason)).status ≢ 0
          → (now ≤ r.renewed_at + r.ttl_seconds)
            × (cmd_reclaim (some seen) (some r) none host now (some reason)
                ≡ record { status = 3; row = some r }))
unfolding cmd_reclaim
cmd_reclaim_iff_expired seen r h host reason now e ne given = (
  λ ok. ground (arith, eq_iff h hub_agent_id, eq_iff reason ""),
  λ refused. ground (arith, eq_iff h hub_agent_id, eq_iff reason ""),
)

-- A command on the lease: what a body runs, and at what time.
pub data Command : Type 0 where
  renew : String → String → ℕ → Command
  take : String → String → ℕ → Option String → Command

unfoldable pub execute : Option Lease → Command → Option Lease
unfolding cmd_take cmd_renew
execute row (renew agent host t) = (cmd_renew row agent host t).row
execute row (take agent host t reason) = (cmd_take row row agent host t reason).row

unfoldable pub execute_all : Option Lease → List Command → Option Lease
execute_all row [] = row
execute_all row (c ∷ cs) = execute_all (execute row c) cs

abbrev pub run_at : Command → ℕ
run_at (renew agent host t) = t
run_at (take agent host t reason) = t

-- The row names `agent` at `host`, and does not expire before `until`.
abbrev pub OwnedBy : String → String → ℕ → ℕ → Option Lease → Type 0
OwnedBy agent host from until none = ⊥
OwnedBy agent host from until (some r) =
    (r.holder ≡ some agent)
    × (r.holder_host ≡ some host)
    × (from ≤ r.renewed_at)
    × (until ≤ from + r.ttl_seconds)

module _ (a h : String) (from until : ℕ) where
  monitor_execute-OwnedBy :
      (r : Lease) (c : Command)
      → OwnedBy a h from until (some r)
      → (from ≤ run_at c) × (run_at c ≤ until)
      → OwnedBy a h from until (execute (some r) c)
  unfolding execute
  monitor_execute-OwnedBy r (renew agent host t) o p =
      ground (arith, eq_iff a agent, eq_iff h host, eq_iff h "")
  monitor_execute-OwnedBy r (take agent host t reason) o p =
      ground (arith, eq_iff a agent, eq_iff h host)

  -- A live monitor keeps its pens: from a row that names an agent and a host and is fresh until
  -- `until`, whatever commands any bodies run up to then, the row still names them and is fresh.
  pub monitor_execute_all-OwnedBy :
      (row : Option Lease) (cs : List Command)
      → OwnedBy a h from until row
      → All (λ c. (from ≤ run_at c) × (run_at c ≤ until)) cs
      → OwnedBy a h from until (execute_all row cs)
  unfolding execute_all
  monitor_execute_all-OwnedBy row [] o p = o
  monitor_execute_all-OwnedBy none (c ∷ cs) o p = absurd o
  monitor_execute_all-OwnedBy (some r) (c ∷ cs) o p =
      monitor_execute_all-OwnedBy (execute (some r) c) cs (monitor_execute-OwnedBy r c o p.0) p.1
