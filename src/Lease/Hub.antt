-- ===== src/Lease/Hub.antt =====
-- scripts/lib/orch_lease.py: the lease on the hub's five pens. The gate, its pure core, and the
-- commands with the SQL that they send. A host is a body's identity here.
pub mod Gate
pub mod Refinement
pub mod Takeover
mod Samples
use Prim.Native.String.{◌++◌}
use wingmen_orchestrator.Prelude.{
  ℕ, ◌+◌, String, Bool, true, false, not, ◌&&◌, ◌||◌, Option, none, some, ltb, ◌==◌, string_eq,
  if◌then◌else◌,
}
use wingmen_orchestrator.Prelude.Sql.{
  sql_eq, sql_not, sql_or, sql_and, not_distinct, is_null, holds,
}
use wingmen_orchestrator.Lease.Row.{
  Lease, shown, or_else, coalesce, sql_concat, at_host, is_expired,
}

pub data Reason : Type 0 where
  lease_missing_failsafe holder_host_null_failsafe holder_current holder_stale_self : Reason
  lease_unreadable_failsafe dr_override console_holds_no_pens : Reason
  held_fresh : Option String → String → String → Reason
  prior_holder_expired : Option String → String → Reason

pub record Verdict : Type 0 where
  pub ok : Bool
  pub reason : Reason

abbrev pub verdict : Bool → Reason → Verdict
verdict b r = record { ok = b; reason = r }

abbrev decide_held : Lease → String → String → Bool → Verdict
decide_held r holder_host host expired =
    if holder_host == host
    then verdict true (if expired then holder_stale_self else holder_current)
    else if expired
    then verdict true (prior_holder_expired r.holder holder_host)
    else verdict false (held_fresh r.holder holder_host host)

abbrev decide_host : Lease → Option String → String → ℕ → Verdict
decide_host r none host now = verdict true holder_host_null_failsafe
decide_host r (some h) host now = decide_held r h host (is_expired r.renewed_at r.ttl_seconds now)

unfoldable pub decide : Option Lease → String → ℕ → Verdict
unfolding is_expired
decide none host now = verdict true lease_missing_failsafe
decide (some r) host now = decide_host r r.holder_host host now

-- `row.get(k) != snapshot.get(k)` on the two columns that the snapshot holds to
abbrev pub same_identity : Lease → Lease → Bool
same_identity r s = not_distinct r.holder s.holder && not_distinct r.holder_host s.holder_host

abbrev pub changed_under : Option Lease → Lease → Bool
changed_under none r = false
changed_under (some s) r = not (same_identity r s)

-- `holder_host` is absent or this host
abbrev pub host_is_mine : Option String → String → Bool
host_is_mine none host = true
host_is_mine (some h) host = h == host

abbrev pub take_over : Lease → String → String → ℕ → Option String → Lease
take_over r new_holder host now reason =
    let moved =
      not (not_distinct r.holder_host (some host) && not_distinct r.holder (some new_holder)) in
    record {
      holder = some new_holder;
      holder_host = some host;
      acquired_at = now;
      renewed_at = now;
      ttl_seconds = r.ttl_seconds;
      taken_over_from =
          if moved
          then some (at_host (shown r.holder) (or_else r.holder_host "?"))
          else r.taken_over_from;
      takeover_reason = if moved then reason else r.takeover_reason;
    }

unfoldable pub apply_take :
    Option Lease → String → String → ℕ → Option String → Bool → Option Lease → Option Lease
unfolding is_expired
apply_take none new_holder host now reason force snapshot = none
apply_take (some r) new_holder host now reason force snapshot =
    if changed_under snapshot r
    then none
    else if not
        (host_is_mine r.holder_host host || is_expired r.renewed_at r.ttl_seconds now || force)
    then none
    else some (take_over r new_holder host now reason)

unfoldable pub apply_renew : Option Lease → String → ℕ → Option Lease
apply_renew none host now = none
apply_renew (some r) host now =
    if host_is_mine r.holder_host host
    then some (record r { renewed_at = now; holder_host = some (or_else r.holder_host host) })
    else none

-- The UPDATE of `cmd_take`, on the row that it meets: `none` where its WHERE takes no row.
unfoldable pub take_sql : Lease → String → String → ℕ → Option String → Bool → Lease → Option Lease
take_sql r me host now reason force snap =
    let moved = holds (
      sql_or (sql_not (sql_eq r.holder (some me)))
        (some (not (not_distinct r.holder_host (some host))))) in
    if holds (
      sql_and (sql_eq r.holder snap.holder) (
        sql_and (some (not_distinct r.holder_host snap.holder_host)) (
          sql_or (sql_or (is_null r.holder_host) (sql_eq r.holder_host (some host)))
            (sql_or (some (ltb (r.renewed_at + r.ttl_seconds) now)) (some force)))))
    then some (record {
      holder = some me;
      holder_host = some host;
      acquired_at = now;
      renewed_at = now;
      ttl_seconds = r.ttl_seconds;
      taken_over_from =
          if moved
          then sql_concat r.holder ("@" ++ coalesce r.holder_host "?")
          else r.taken_over_from;
      takeover_reason = if moved then reason else r.takeover_reason;
    })
    else none

-- The UPDATE of `cmd_renew`.
unfoldable pub renew_sql : Lease → String → ℕ → Option Lease
renew_sql r me now =
    if holds (sql_or (is_null r.holder_host) (sql_eq r.holder_host (some me)))
    then some (record r { renewed_at = now; holder_host = some (coalesce r.holder_host me) })
    else none

-- The environment of `check`: ORCH_BODY_ROLE as `_role` cleans it, and ORCH_DR_OVERRIDE.
pub record Env : Type 0 where
  pub role : String
  pub dr_override : Option String

-- What reading the row gives: `unreadable` is any exception.
pub data Read : Type 0 where
  unreadable : Read
  fetched : Option Lease → Read

abbrev is_one : Option String → Bool
is_one none = false
is_one (some v) = v == "1"

unfoldable pub check : Env → Read → String → ℕ → Verdict
unfolding decide
check env read me now =
    if env.role == "console"
    then (if is_one env.dr_override
        then verdict true dr_override
        else verdict false console_holds_no_pens)
    else elim read [
      | unreadable ↦ verdict true lease_unreadable_failsafe
      | fetched row ↦ decide row me now
    ]

-- The exit status of `check` on the command line.
unfoldable pub cmd_check : Env → Read → String → ℕ → ℕ
unfolding check
cmd_check env read me now = if (check env read me now).ok then 0 else 3

pub record Outcome : Type 0 where
  pub status : ℕ
  pub row : Option Lease

abbrev stored : ℕ → Option Lease → Option Lease → Outcome
stored refused old none = record { status = refused; row = old }
stored refused old (some r) = record { status = 0; row = some r }

-- `cmd_take` reads the row first (`seen`) and its UPDATE meets `current`, which another process may
-- have changed in between.
unfoldable pub cmd_take :
    Option Lease → Option Lease → String → String → ℕ → Option String → Bool → Outcome
unfolding take_sql
cmd_take none current holder_id host now reason force = record { status = 1; row = current }
cmd_take (some snap) none holder_id host now reason force = record { status = 3; row = none }
cmd_take (some snap) (some r) holder_id host now reason force =
    stored 3 (some r) (take_sql r holder_id host now reason force snap)

unfoldable pub cmd_renew : Option Lease → String → ℕ → Outcome
unfolding renew_sql
cmd_renew none me now = record { status = 3; row = none }
cmd_renew (some r) me now = stored 3 (some r) (renew_sql r me now)
