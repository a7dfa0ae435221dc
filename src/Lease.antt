-- ===== src/Lease.antt =====
-- The substrate leases: one row of table `orch_lease` (scripts/lib/orch_lease.py) and one of
-- `fleet_health_lease` (scripts/lib/fleet_health_lease.py). Both rows have these columns. Times are
-- numbers of one unit, of which the code only takes sums and orders.
pub mod Row
pub mod Hub
pub mod FleetHealth
