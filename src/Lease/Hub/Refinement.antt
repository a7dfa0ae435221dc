-- ===== src/Lease/Hub/Refinement.antt =====
-- The SQL of the hub's lease commands does what the pure core says.
use wingmen_orchestrator.Prelude.{
  ℕ, String, ◌≡◌, ◌≢◌, inl, inr, Bool, Option, some, Option-cases, arith, eq_iff,
}
use wingmen_orchestrator.Lease.Row.{Lease}
use wingmen_orchestrator.Lease.Hub.{apply_take, apply_renew, take_sql, renew_sql}

-- For a row whose holder is not NULL and whose host is not the empty text, the UPDATE of `take`
-- writes the row that `apply_take` computes with the read row as its snapshot, and takes no row
-- where `apply_take` refuses. The snapshot's holder is not NULL either.
pub take_sql-eq-apply_take :
    (r snap : Lease) (me host : String) (now : ℕ) (reason : Option String) (force : Bool)
    (h k : String)
    → r.holder ≡ some h
    → snap.holder ≡ some k
    → r.holder_host ≢ some ""
    → take_sql r me host now reason force snap
      ≡ apply_take (some r) me host now reason force (some snap)
unfolding take_sql apply_take
take_sql-eq-apply_take r snap me host now reason force h k e f ne =
    elim (Option-cases r.holder_host) [
      | inl none_yet ↦ elim (Option-cases snap.holder_host) [
        | inl none_seen ↦ ground (arith, eq_iff h k, eq_iff h me)
        | inr (j, seen) ↦ ground (arith, eq_iff h k, eq_iff h me)
      ]
      | inr (i, named) ↦ elim (Option-cases snap.holder_host) [
        | inl none_seen ↦ ground (arith, eq_iff h k, eq_iff h me, eq_iff i host, eq_iff i "")
        | inr (j, seen) ↦
            ground (arith, eq_iff h k, eq_iff h me, eq_iff i host, eq_iff i j, eq_iff i "")
      ]
    ]

-- The UPDATE of `renew` writes the row that `apply_renew` computes.
pub renew_sql-eq-apply_renew :
    (r : Lease) (me : String) (now : ℕ) → renew_sql r me now ≡ apply_renew (some r) me now
unfolding renew_sql apply_renew
renew_sql-eq-apply_renew r me now = elim (Option-cases r.holder_host) [
  | inl none_yet ↦ ground arith
  | inr (i, named) ↦ ground (arith, eq_iff i me, eq_iff i "")
]
