-- ===== src/Council/Commands.antt =====
-- Of council_commands.py, what changes a session or its execution. An argument is there if it is not blank.
pub mod Gates
use wingmen_orchestrator.Prelude.{
  Bool, true, false, not, ◌&&◌, ◌||◌, Option, none, some, List, ◌∷◌, if◌then◌else◌,
}
use wingmen_orchestrator.Council.World.{
  Spec, Status, dry_run_complete, executing, musa_execute, musa_concur, Event, became, ordered,
  posted, World, M, then_do, ◌>>=◌, ◌>>◌, pure, raise, add_event, write_status, call_db, Outcome,
  returned, raised,
}

pub record Command : Type 0 where
  pub is_musa : Bool
  pub has_id : Bool
  pub has_comment : Bool
  pub is_found : Bool

abbrev pub is_dry_run_complete : Option Status → Bool
is_dry_run_complete (some dry_run_complete) = true
is_dry_run_complete _ = false

abbrev has_spec : Option Spec → Bool
has_spec none = false
has_spec (some s) = true

abbrev pub may_execute : Command → World → Bool
may_execute c w =
    c.is_musa
    && c.has_id
    && c.has_comment
    && c.is_found
    && has_spec w.spec
    && w.spec_approved
    && is_dry_run_complete w.status

unfoldable pub order_execution : Command → M (Unit {0})
unfolding call_db
order_execution c w =
    if may_execute c w
    then (call_db (λ u. write_status executing (add_event (ordered c.is_musa) u))
          >> call_db (add_event (posted musa_execute)))
        w
    else (returned tt, w)

unfoldable pub on_found : Command → M (Unit {0})
unfolding call_db order_execution
on_found c w = if c.is_found then (call_db (λ v. v) >> order_execution c) w else (returned tt, w)

-- The session is read twice.
unfoldable pub cmd_execute : Command → M (Unit {0})
unfolding call_db on_found
cmd_execute c w =
    if not (c.is_musa && c.has_id && c.has_comment)
    then (returned tt, w)
    else (call_db (λ v. v) >> on_found c) w

unfoldable pub end_session : M (Unit {0})
unfolding call_db
end_session w =
    if w.is_ended then (returned tt, w) else call_db (λ u. record u { is_ended = true }) w

unfoldable pub post_concur : Command → M (Unit {0})
unfolding call_db end_session
post_concur c w =
    if c.is_found
    then (call_db (add_event (posted musa_concur)) >> end_session) w
    else (returned tt, w)

unfoldable pub cmd_concur : Command → M (Unit {0})
unfolding call_db post_concur
cmd_concur c w =
    if not (c.is_musa && c.has_id) then (returned tt, w) else (call_db (λ v. v) >> post_concur c) w
