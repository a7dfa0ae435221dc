-- ===== src/Lease/Hub/Samples.antt =====
-- Runs of the hub's lease on sample rows.
use wingmen_orchestrator.Prelude.{
  ◌≡◌, refl, ◌↔◌, inl, inr, true, false, none, some, List, [], ◌∷◌, arith, eq_iff,
}
use wingmen_orchestrator.Lease.Row.{Lease, is_expired}
use wingmen_orchestrator.Lease.Hub.{
  unreadable, decide, check, cmd_check, apply_take, take_sql, cmd_take,
}
use wingmen_orchestrator.Lease.Hub.Gate.{HeldElsewhere, decide_refuses_iff}
use wingmen_orchestrator.Lease.Hub.Refinement.{take_sql-eq-apply_take}
use wingmen_orchestrator.Lease.Hub.Takeover.{
  Command, renew, take, execute_all, OwnedBy, execute_all-OwnedBy,
}

abbrev mac_row : Lease
mac_row = record {
  holder = some "hub";
  holder_host = some "mac";
  acquired_at = 100;
  renewed_at = 100;
  ttl_seconds = 300;
  taken_over_from = none;
  takeover_reason = none;
}

fresh_row_test : (decide (some mac_row) "vps" 400).ok ≡ false
unfolding decide is_expired
fresh_row_test = refl

expired_row_test : (decide (some mac_row) "vps" 401).ok ≡ true
unfolding decide is_expired
expired_row_test = refl

unreadable_test : cmd_check (record { role = "hub"; dr_override = none }) unreadable "vps" 5 ≡ 0
unfolding cmd_check check
unreadable_test = refl

take_test :
    (cmd_take (some mac_row) (some mac_row) "hub" "vps" 401 (some "dead") false).row
    ≡ some (record {
      holder = some "hub";
      holder_host = some "vps";
      acquired_at = 401;
      renewed_at = 401;
      ttl_seconds = 300;
      taken_over_from = some "hub@mac";
      takeover_reason = some "dead";
    })
unfolding cmd_take take_sql
take_test = refl

decide_refuses_iff_example :
    ((decide (some mac_row) "vps" 400).ok ≡ false) ↔ HeldElsewhere mac_row "vps" 400
decide_refuses_iff_example = decide_refuses_iff mac_row "vps" 400

take_sql-eq-apply_take_example :
    take_sql mac_row "hub" "vps" 500 (some "dead") false mac_row
    ≡ apply_take (some mac_row) "hub" "vps" 500 (some "dead") false (some mac_row)
take_sql-eq-apply_take_example =
    take_sql-eq-apply_take mac_row mac_row "hub" "vps" 500 (some "dead") false "hub" "hub" refl refl
      (ground (arith, eq_iff "mac" ""))

abbrev day : List Command
day =
    renew "mac" 150
    ∷ take "hub" "vps" 200 none false
    ∷ renew "vps" 300
    ∷ take "hub" "mac" 390 none true
    ∷ []

execute_all-OwnedBy_example : OwnedBy "mac" 100 400 (execute_all (some mac_row) day)
execute_all-OwnedBy_example =
    execute_all-OwnedBy "mac" 100 400 (some mac_row) day (refl, omega arith, omega arith)
      (
        (omega arith, omega arith),
        (
          (omega arith, omega arith, inl refl),
          ((omega arith, omega arith), ((omega arith, omega arith, inr refl), tt)),
        ),
      )
