-- ===== src/Lease/Hub/Takeover.antt =====
-- Who can take the hub's lease, and when.
use wingmen_orchestrator.Prelude.{
  ℕ, ◌+◌, ◌≤◌, String, ◌≡◌, ◌≢◌, ◌↔◌, ◌⊎◌, inl, inr, Bool, true, false, Option, none, some, List,
  [], ◌∷◌, Option-cases, All, arith, eq_iff,
}
use wingmen_orchestrator.Prelude.Sql.{not_distinct_self}
use wingmen_orchestrator.Lease.Row.{Lease}
use wingmen_orchestrator.Lease.Hub.{same_identity, apply_take, cmd_take, cmd_renew}
use wingmen_orchestrator.Lease.Hub.Gate.{HeldElsewhere}

same_identity_self : (r : Lease) → same_identity r r ≡ true
same_identity_self r = simp not_distinct_self

module _ (r : Lease) (me host : String) (now : ℕ) (reason : Option String) where
  refused_live :
      apply_take (some r) me host now reason false (some r) ≡ none → HeldElsewhere r host now
  unfolding apply_take
  refused_live h = elim (Option-cases r.holder_host) [
    | inl absent ↦ ground (arith, same_identity_self r)
    | inr (k, named) ↦ record {
      other = k;
      recorded = named;
      foreign = ground (arith, same_identity_self r, eq_iff k host);
      fresh = ground (arith, same_identity_self r, eq_iff k host);
    }
  ]

-- Without --force, a take against the row that it has read is refused exactly when that row names
-- another host and has not expired.
pub take_refused_iff :
    (r : Lease) (me host : String) (now : ℕ) (reason : Option String)
    → (apply_take (some r) me host now reason false (some r) ≡ none) ↔ HeldElsewhere r host now
unfolding apply_take
take_refused_iff r me host now reason = (
  refused_live r me host now reason,
  λ h. ground (arith, same_identity_self r, h.recorded, h.foreign, h.fresh, eq_iff h.other host),
)

-- Two takes that have read the same row, forced or not: if the first succeeds and makes another
-- holder or another host the owner, then the second exits with 3 and leaves the first one's row.
pub take-take_race :
    (r : Lease) (a b ha hb : String) (s t : ℕ) (ra rb : Option String) (fa fb : Bool)
    → (r.holder ≢ some a) ⊎ (r.holder_host ≢ some ha)
    → (cmd_take (some r) (some r) a ha s ra fa).status ≡ 0
    → cmd_take (some r) (cmd_take (some r) (some r) a ha s ra fa).row b hb t rb fb
      ≡ record { status = 3; row = (cmd_take (some r) (some r) a ha s ra fa).row }
unfolding cmd_take
take-take_race r a b ha hb s t ra rb fa fb moved won = elim (Option-cases r.holder) [
  | inl absent ↦ ground arith
  | inr (h, held) ↦ elim (Option-cases r.holder_host) [
    | inl absent ↦ ground (arith, eq_iff a h)
    | inr (k, named) ↦ ground (arith, eq_iff a h, eq_iff ha k)
  ]
]

-- A command on the lease: what a body runs, and at what time.
pub data Command : Type 0 where
  renew : String → ℕ → Command
  take : String → String → ℕ → Option String → Bool → Command

-- Each command reads the row, and its UPDATE meets the row that it has read.
unfoldable pub execute : Option Lease → Command → Option Lease
unfolding cmd_take cmd_renew
execute row (renew host t) = (cmd_renew row host t).row
execute row (take me host t reason force) = (cmd_take row row me host t reason force).row

unfoldable pub execute_all : Option Lease → List Command → Option Lease
execute_all row [] = row
execute_all row (c ∷ cs) = execute_all (execute row c) cs

-- The command runs between `from` and `until`, and is no forced take by a host other than `h`.
abbrev pub Peaceful : String → ℕ → ℕ → Command → Type 0
Peaceful h from until (renew host t) = (from ≤ t) × (t ≤ until)
Peaceful h from until (take me host t reason force) =
    (from ≤ t) × (t ≤ until) × ((force ≡ false) ⊎ (host ≡ h))

-- The row names host `h`, and does not expire before `until`.
abbrev pub OwnedBy : String → ℕ → ℕ → Option Lease → Type 0
OwnedBy h from until none = ⊥
OwnedBy h from until (some r) =
    (r.holder_host ≡ some h) × (from ≤ r.renewed_at) × (until ≤ from + r.ttl_seconds)

execute-OwnedBy :
    (h : String) (from until : ℕ) (r : Lease) (c : Command)
    → OwnedBy h from until (some r)
    → Peaceful h from until c
    → OwnedBy h from until (execute (some r) c)
unfolding execute
execute-OwnedBy h from until r (renew host t) o p = ground (arith, eq_iff h host, eq_iff h "")
execute-OwnedBy h from until r (take me host t reason force) o p = ground (arith, eq_iff h host)

-- A live hub keeps its pens: from a row that names `h` and is fresh until `until`, after any renewals
-- and takes by any bodies up to then, in any order, none of the other hosts' takes forced, the row
-- still names `h` and is still fresh.
pub execute_all-OwnedBy :
    (h : String) (from until : ℕ) (row : Option Lease) (cs : List Command)
    → OwnedBy h from until row
    → All (Peaceful h from until) cs
    → OwnedBy h from until (execute_all row cs)
unfolding execute_all
execute_all-OwnedBy h from until row [] o p = o
execute_all-OwnedBy h from until none (c ∷ cs) o p = absurd o
execute_all-OwnedBy h from until (some r) (c ∷ cs) o p =
    execute_all-OwnedBy h from until (execute (some r) c) cs
      (execute-OwnedBy h from until r c o p.0) p.1
