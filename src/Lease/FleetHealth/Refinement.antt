-- ===== src/Lease/FleetHealth/Refinement.antt =====
-- The SQL of the watchdog lease's commands does what the pure core says.
use wingmen_orchestrator.Prelude.{
  ℕ, String, ◌≡◌, ◌≢◌, inl, inr, Option, some, Option-cases, arith, eq_iff,
}
use wingmen_orchestrator.Lease.Row.{Lease}
use wingmen_orchestrator.Lease.FleetHealth.{apply_take, apply_renew, take_sql, renew_sql}

-- For a row whose holder is not NULL and whose host is not the empty text, the UPDATE of `take`
-- writes the row that `apply_take` computes, and takes no row where `apply_take` refuses.
pub monitor_take_sql-eq-apply_take :
    (r : Lease) (me host : String) (now : ℕ) (reason : Option String) (h : String)
    → r.holder ≡ some h
    → r.holder_host ≢ some ""
    → take_sql r me host now reason ≡ apply_take (some r) me host now reason
unfolding take_sql apply_take
monitor_take_sql-eq-apply_take r me host now reason h e ne = elim (Option-cases r.holder_host) [
  | inl absent ↦ ground (arith, eq_iff h me)
  | inr (i, named) ↦ ground (arith, eq_iff h me, eq_iff i host, eq_iff i "")
]

-- The UPDATE of `renew` writes the row that `apply_renew` computes, for every row.
pub monitor_renew_sql-eq-apply_renew :
    (r : Lease) (me host : String) (now : ℕ)
    → renew_sql r me host now ≡ apply_renew (some r) me host now
unfolding renew_sql apply_renew
monitor_renew_sql-eq-apply_renew r me host now = elim (Option-cases r.holder) [
  | inl free ↦ ground arith
  | inr (h, held) ↦ elim (Option-cases r.holder_host) [
    | inl absent ↦ ground (arith, eq_iff h me)
    | inr (i, named) ↦ ground (arith, eq_iff h me, eq_iff i host, eq_iff i "")
  ]
]
