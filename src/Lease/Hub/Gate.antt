-- ===== src/Lease/Hub/Gate.antt =====
-- Whom the gate of the hub's pens lets through.
use wingmen_orchestrator.Prelude.{
  ℕ, ◌+◌, ◌≤◌, String, ◌≡◌, refl, ◌≢◌, ◌↔◌, ◌⊎◌, inl, inr, true, false, Option, none, some, arith,
  eq_iff, Bool-cases,
}
use wingmen_orchestrator.Lease.Row.{Lease, is_expired}
use wingmen_orchestrator.Lease.Hub.{Env, Read, unreadable, fetched, decide, decide_host, cmd_check}

-- A row names a live holder on another host.
pub record HeldElsewhere (r : Lease) (host : String) (now : ℕ) : Type 0 where
  pub other : String
  pub recorded : r.holder_host ≡ some other
  pub foreign : other ≢ host
  pub fresh : now ≤ r.renewed_at + r.ttl_seconds

module _ (r : Lease) (host : String) (now : ℕ) where
  refused_by :
      (o : Option String)
      → r.holder_host ≡ o
      → (decide_host r o host now).ok ≡ false
      → HeldElsewhere r host now
  unfolding is_expired
  refused_by none e h = ground arith
  refused_by (some k) e h = record {
    other = k;
    recorded = e;
    foreign = ground (arith, eq_iff k host);
    fresh = ground (arith, eq_iff k host);
  }

-- The gate refuses a body exactly when the row names another host and has not expired.
pub decide_refuses_iff :
    (r : Lease) (host : String) (now : ℕ)
    → ((decide (some r) host now).ok ≡ false) ↔ HeldElsewhere r host now
unfolding decide
decide_refuses_iff r host now = (
  λ h. refused_by r host now r.holder_host refl h,
  λ h. ground (arith, h.recorded, h.foreign, h.fresh, eq_iff h.other host),
)

-- While the row names a host and is fresh, no two different hosts are both let through.
pub decide-exclusive :
    (r : Lease) (h a b : String) (now : ℕ)
    → r.holder_host ≡ some h
    → now ≤ r.renewed_at + r.ttl_seconds
    → a ≢ b
    → (decide (some r) a now).ok ≡ true
    → (decide (some r) b now).ok ≡ false
unfolding decide
decide-exclusive r h a b now e fresh ne ok = ground (arith, eq_iff h a, eq_iff h b)

by_row :
    (env : Env) (row : Option Lease) (me : String) (now : ℕ)
    → env.role ≢ "console"
    → (cmd_check env (fetched row) me now ≡ 0)
      ⊎ ((cmd_check env (fetched row) me now ≡ 3)
          × ((r : Lease) × (fetched row ≡ fetched (some r)) × HeldElsewhere r me now))
unfolding cmd_check
by_row env none me now h = inl (ground (arith, eq_iff env.role "console"))
by_row env (some r) me now h = elim (Bool-cases (decide (some r) me now).ok) [
  | inl allowed ↦ inl (ground (arith, eq_iff env.role "console"))
  | inr refused ↦ inr (
    ground (arith, eq_iff env.role "console"),
    (r, refl, (decide_refuses_iff r me now).0 refused),
  )
]

-- The hub is never stranded: for a body whose role is not console, the command exits with 3 only
-- where the row was read and names a live holder on another host, and with 0 otherwise.
pub cmd_check_status :
    (env : Env) (read : Read) (me : String) (now : ℕ)
    → env.role ≢ "console"
    → (cmd_check env read me now ≡ 0)
      ⊎ ((cmd_check env read me now ≡ 3)
          × ((r : Lease) × (read ≡ fetched (some r)) × HeldElsewhere r me now))
unfolding cmd_check
cmd_check_status env read me now h =
    elim read
      as (λ x.
        (cmd_check env x me now ≡ 0)
        ⊎ ((cmd_check env x me now ≡ 3)
            × ((r : Lease) × (x ≡ fetched (some r)) × HeldElsewhere r me now))) [
              | unreadable ↦ inl (ground (arith, eq_iff env.role "console"))
              | fetched row ↦ by_row env row me now h
            ]
