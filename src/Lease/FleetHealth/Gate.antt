-- ===== src/Lease/FleetHealth/Gate.antt =====
-- Whom the gate of the watchdog pens lets through.
use wingmen_orchestrator.Prelude.{
  ℕ, ◌+◌, ◌≤◌, String, ◌≡◌, refl, ◌≢◌, ◌↔◌, ◌⊎◌, inl, inr, true, false, Option, none, some,
  Bool-cases, ◌==◌, string_eq, arith, eq_iff,
}
use wingmen_orchestrator.Lease.Row.{Lease, is_expired}
use wingmen_orchestrator.Lease.FleetHealth.{decide, decide_held}

-- A row that has not expired names another agent, or this agent at another host.
pub record HeldByOther (r : Lease) (agent host : String) (now : ℕ) : Type 0 where
  pub other : String
  pub recorded : r.holder ≡ some other
  pub foreign : (other ≢ agent) ⊎ ((k : String) × (r.holder_host ≡ some k) × (k ≢ host))
  pub fresh : now ≤ r.renewed_at + r.ttl_seconds

module _ (r : Lease) (agent host : String) (now : ℕ) where
  foreign_by :
      (k : String) (o : Option String)
      → r.holder_host ≡ o
      → (decide_held r (some k) agent host now).ok ≡ false
      → (k ≢ agent) ⊎ ((j : String) × (r.holder_host ≡ some j) × (j ≢ host))
  unfolding is_expired
  foreign_by k none e h = inl (ground (arith, eq_iff k agent))
  foreign_by k (some j) e h = elim (Bool-cases (k == agent)) [
    | inl same ↦ inr (j, e, ground (arith, eq_iff j host, eq_iff k agent))
    | inr differs ↦ inl (ground (arith, eq_iff k agent))
  ]

  refused_by :
      (o : Option String)
      → r.holder ≡ o
      → (decide_held r o agent host now).ok ≡ false
      → HeldByOther r agent host now
  unfolding is_expired
  refused_by none e h = ground arith
  refused_by (some k) e h = record {
    other = k;
    recorded = e;
    foreign = foreign_by k r.holder_host refl h;
    fresh = ground (arith, eq_iff k agent);
  }

  refuses : HeldByOther r agent host now → (decide (some r) agent host now).ok ≡ false
  unfolding decide
  refuses h = elim h.foreign [
    | inl other_agent ↦ ground (arith, h.recorded, h.fresh, eq_iff h.other agent)
    | inr (k, named, ne) ↦ ground (arith, h.recorded, h.fresh, eq_iff k host)
  ]

-- The gate refuses a body exactly when a row that has not expired names another agent, or the same
-- agent at another host.
pub monitor_refuses_iff :
    (r : Lease) (agent host : String) (now : ℕ)
    → ((decide (some r) agent host now).ok ≡ false) ↔ HeldByOther r agent host now
unfolding decide
monitor_refuses_iff r agent host now =
    (refused_by r agent host now r.holder refl, refuses r agent host now)

-- While a row that names an agent and a host is fresh, of two bodies that differ in agent or in
-- host at most one is let through.
pub monitor-exclusive :
    (r : Lease) (h k a b ha hb : String) (now : ℕ)
    → r.holder ≡ some h
    → r.holder_host ≡ some k
    → now ≤ r.renewed_at + r.ttl_seconds
    → (a ≢ b) ⊎ (ha ≢ hb)
    → (decide (some r) a ha now).ok ≡ true
    → (decide (some r) b hb now).ok ≡ false
unfolding decide
monitor-exclusive r h k a b ha hb now e f fresh ne ok =
    ground (arith, eq_iff h a, eq_iff h b, eq_iff k ha, eq_iff k hb)
