-- ===== src/Lease/FleetHealth/Samples.antt =====
-- Runs of the watchdog's lease on sample rows.
use wingmen_orchestrator.Prelude.{◌≡◌, refl, false, none, some, List, [], ◌∷◌}
use wingmen_orchestrator.Lease.Row.{Lease, is_expired}
use wingmen_orchestrator.Lease.FleetHealth.{decide, take_sql, cmd_take, cmd_reclaim}
use wingmen_orchestrator.Lease.FleetHealth.Takeover.{Command, renew, take}

abbrev monitor_row : Lease
monitor_row = record {
  holder = some "fh";
  holder_host = some "vps";
  acquired_at = 10;
  renewed_at = 10;
  ttl_seconds = 90;
  taken_over_from = none;
  takeover_reason = none;
}

same_agent_other_host_test : (decide (some monitor_row) "fh" "mac" 50).ok ≡ false
unfolding decide is_expired
same_agent_other_host_test = refl

reclaim_test :
    (cmd_reclaim (some monitor_row) (some monitor_row) none "mac" 101 (some "dead")).status ≡ 0
unfolding cmd_reclaim cmd_take take_sql
reclaim_test = refl

abbrev shift : List Command
shift = renew "fh" "vps" 40 ∷ take "cto" "mac" 60 none ∷ renew "fh" "mac" 80 ∷ []
