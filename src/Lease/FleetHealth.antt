-- ===== src/Lease/FleetHealth.antt =====
-- scripts/lib/fleet_health_lease.py: the lease on the watchdog and fleet-status pens. An agent at a
-- host is a body's identity here. The gate, its pure core, and the commands with their SQL.
pub mod Gate
pub mod Refinement
pub mod Takeover
mod Samples
use Prim.Native.String.{◌++◌}
use wingmen_orchestrator.Prelude.{
  ℕ, ◌+◌, String, Bool, true, false, not, ◌&&◌, ◌||◌, Option, none, some, ltb, ◌==◌, string_eq,
  if◌then◌else◌,
}
use wingmen_orchestrator.Prelude.Sql.{
  sql_eq, sql_not, sql_or, sql_and, not_distinct, is_null, holds,
}
use wingmen_orchestrator.Lease.Row.{
  Lease, shown, or_else, coalesce, sql_concat, at_host, is_expired,
}

pub data Reason : Type 0 where
  lease_missing_failsafe holder_null_failsafe holder_current holder_stale_self : Reason
  lease_unreadable_failsafe : Reason
  held_fresh : String → Option String → String → String → Reason
  prior_holder_expired : String → Option String → Reason

pub record Verdict : Type 0 where
  pub ok : Bool
  pub reason : Reason

abbrev pub verdict : Bool → Reason → Verdict
verdict b r = record { ok = b; reason = r }

-- `holder_host is None or holder_host == host`
abbrev pub host_ok : Option String → String → Bool
host_ok none host = true
host_ok (some h) host = h == host

abbrev pub decide_held : Lease → Option String → String → String → ℕ → Verdict
decide_held r none agent host now = verdict true holder_null_failsafe
decide_held r (some holder) agent host now =
    let expired = is_expired r.renewed_at r.ttl_seconds now in
    if holder == agent && host_ok r.holder_host host
    then verdict true (if expired then holder_stale_self else holder_current)
    else if expired
    then verdict true (prior_holder_expired holder r.holder_host)
    else verdict false (held_fresh holder r.holder_host agent host)

unfoldable pub decide : Option Lease → String → String → ℕ → Verdict
unfolding is_expired
decide none agent host now = verdict true lease_missing_failsafe
decide (some r) agent host now = decide_held r r.holder agent host now

abbrev pub held_by : Lease → String → String → Bool
held_by r agent host = not_distinct r.holder (some agent) && host_ok r.holder_host host

unfoldable pub apply_take : Option Lease → String → String → ℕ → Option String → Option Lease
unfolding is_expired
apply_take none agent host now reason = none
apply_take (some r) agent host now reason =
    let same = not_distinct r.holder (some agent) in
    if not (held_by r agent host || is_expired r.renewed_at r.ttl_seconds now)
    then none
    else some (record {
      holder = some agent;
      holder_host = some host;
      acquired_at = now;
      renewed_at = now;
      ttl_seconds = r.ttl_seconds;
      taken_over_from =
          if same
          then r.taken_over_from
          else some (at_host (shown r.holder) (or_else r.holder_host "?"));
      takeover_reason = if same then r.takeover_reason else reason;
    })

unfoldable pub apply_renew : Option Lease → String → String → ℕ → Option Lease
apply_renew none agent host now = none
apply_renew (some r) agent host now =
    if held_by r agent host
    then some (record r { renewed_at = now; holder_host = some (or_else r.holder_host host) })
    else none

-- The UPDATE of `cmd_take`: `none` where its WHERE takes no row.
unfoldable pub take_sql : Lease → String → String → ℕ → Option String → Option Lease
take_sql r me host now reason =
    let moved = holds (sql_not (sql_eq r.holder (some me))) in
    if holds (
      sql_or
        (sql_and (sql_eq r.holder (some me))
          (sql_or (is_null r.holder_host) (sql_eq r.holder_host (some host))))
        (some (ltb (r.renewed_at + r.ttl_seconds) now)))
    then some (record {
      holder = some me;
      holder_host = some host;
      acquired_at = now;
      renewed_at = now;
      ttl_seconds = r.ttl_seconds;
      taken_over_from =
          if moved
          then sql_concat r.holder ("@" ++ coalesce r.holder_host "?")
          else r.taken_over_from;
      takeover_reason = if moved then reason else r.takeover_reason;
    })
    else none

-- The UPDATE of `cmd_renew`.
unfoldable pub renew_sql : Lease → String → String → ℕ → Option Lease
renew_sql r me host now =
    if holds (
      sql_and (sql_eq r.holder (some me))
        (sql_or (is_null r.holder_host) (sql_eq r.holder_host (some host))))
    then some (record r { renewed_at = now; holder_host = some (coalesce r.holder_host host) })
    else none

-- What reading the row gives: `unreadable` is any exception.
pub data Read : Type 0 where
  unreadable : Read
  fetched : Option Lease → Read

unfoldable pub check : Read → String → String → ℕ → Verdict
unfolding decide
check unreadable agent host now = verdict true lease_unreadable_failsafe
check (fetched row) agent host now = decide row agent host now

unfoldable pub cmd_check : Read → String → String → ℕ → ℕ
unfolding check
cmd_check read agent host now = if (check read agent host now).ok then 0 else 3

pub record Outcome : Type 0 where
  pub status : ℕ
  pub row : Option Lease

abbrev stored : Option Lease → Option Lease → Outcome
stored old none = record { status = 3; row = old }
stored old (some r) = record { status = 0; row = some r }

-- `cmd_take` reads the row first (`seen`), for its report; its UPDATE meets `current`.
unfoldable pub cmd_take :
    Option Lease → Option Lease → String → String → ℕ → Option String → Outcome
unfolding take_sql
cmd_take none current me host now reason = record { status = 1; row = current }
cmd_take (some seen) none me host now reason = record { status = 3; row = none }
cmd_take (some seen) (some r) me host now reason = stored (some r) (take_sql r me host now reason)

unfoldable pub cmd_renew : Option Lease → String → String → ℕ → Outcome
unfolding renew_sql
cmd_renew none me host now = record { status = 3; row = none }
cmd_renew (some r) me host now = stored (some r) (renew_sql r me host now)

abbrev pub hub_agent_id : String
hub_agent_id = "cc-orchestrator"

-- The `reclaim` command of `main`: a take as the hub, if no other agent is named. The empty reason
-- is refused as a missing one is.
unfoldable pub cmd_reclaim :
    Option Lease → Option Lease → Option String → String → ℕ → Option String → Outcome
unfolding cmd_take
cmd_reclaim seen current as_agent host now none = record { status = 2; row = current }
cmd_reclaim seen current as_agent host now (some reason) =
    if reason == ""
    then record { status = 2; row = current }
    else cmd_take seen current (or_else as_agent hub_agent_id) host now (some reason)
