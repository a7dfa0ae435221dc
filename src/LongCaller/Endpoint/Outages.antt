-- ===== src/LongCaller/Endpoint/Outages.antt =====
-- What the notices tell of the probes.
use wingmen_orchestrator.Prelude.{
  ℕ, ◌+◌, ◌≡◌, refl, inl, inr, Bool, true, false, some, Option-cases, Bool-cases, List, [], ◌∷◌,
  map, any, leb, arith, if◌then◌else◌,
}
use wingmen_orchestrator.LongCaller.Endpoint.{
  EndpointState, fresh, record_probe, Notice, unreachable, back_online, notice_of, probe_all,
}

-- Unreachable and back online in turn; `down` says which was the last.
abbrev pub Alternates : Bool → List Notice → Type 0
Alternates down [] = Unit
Alternates true (back_online ∷ ns) = Alternates false ns
Alternates false (unreachable ∷ ns) = Alternates true ns
Alternates true (unreachable ∷ ns) = ⊥
Alternates false (back_online ∷ ns) = ⊥

one_notice :
    (alive : Bool) (now : ℕ) (s : EndpointState) (rest : List Notice)
    → Alternates (record_probe alive now s).1.alerted rest
    → Alternates s.alerted (notice_of (record_probe alive now s) rest)
unfolding record_probe
one_notice true now s rest h = elim (Bool-cases s.alerted) [
  | inl was ↦ ground arith
  | inr calm ↦ ground arith
]
one_notice false now s rest h = elim (Option-cases s.first_failure_at) [
  | inl first ↦ ground arith
  | inr (t, since) ↦ elim (Bool-cases s.alerted) [
    | inl was ↦ ground arith
    | inr calm ↦ ground arith
  ]
]

-- Whatever the probes find and when, the notices of an endpoint are unreachable and back online in
-- turn, beginning with the one that its state calls for: one alert and one recovery for an outage.
pub probe_all-Alternates :
    (ps : List (Bool × ℕ)) (s : EndpointState) → Alternates s.alerted (probe_all ps s)
unfolding probe_all
probe_all-Alternates [] s = tt
probe_all-Alternates ((alive, now) ∷ ps) s =
    one_notice alive now s _ (probe_all-Alternates ps (record_probe alive now s).1)

-- A probe that fails at each of the times.
abbrev pub failed_at : List ℕ → List (Bool × ℕ)
failed_at = map (λ t. (false, t))

abbrev down_since : ℕ → Bool → ℕ → EndpointState
down_since n b t = record { alert_after_seconds = n; first_failure_at = some t; alerted = b }

silent_after : (n t : ℕ) (ts : List ℕ) → probe_all (failed_at ts) (down_since n true t) ≡ []
unfolding probe_all record_probe
silent_after n t [] = refl
silent_after n t (u ∷ ts) = silent_after n t ts

alerts_from :
    (n t : ℕ) (ts : List ℕ)
    → probe_all (failed_at ts) (down_since n false t)
      ≡ (if any (λ u. leb (t + n) u) ts then unreachable ∷ [] else [])
unfolding probe_all record_probe
alerts_from n t [] = refl
alerts_from n t (u ∷ ts) = elim (Bool-cases (leb (t + n) u)) [
  | inl late ↦ ground (arith, silent_after n t ts)
  | inr early ↦ ground (arith, alerts_from n t ts)
]

-- An outage that begins at a probe of a fresh endpoint gives one alert if some later probe of it comes
-- at the alert's delay after the first or later, and none if not.
pub outage_alerts :
    (n t : ℕ) (ts : List ℕ)
    → probe_all (failed_at (t ∷ ts)) (fresh n)
      ≡ (if any (λ u. leb (t + n) u) ts then unreachable ∷ [] else [])
unfolding probe_all record_probe
outage_alerts n t ts = alerts_from n t ts
