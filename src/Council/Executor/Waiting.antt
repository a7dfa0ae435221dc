-- ===== src/Council/Executor/Waiting.antt =====
-- The wait for a review.
use wingmen_orchestrator.Prelude.{
  ℕ, zero, suc, ◌+◌, ◌*◌, ◌-◌, ◌≤◌, ◌<◌, ◌≡◌, ◌≢◌, inl, inr, false, Option, none, some, arith, ltb,
  Bool-cases, Option-cases,
}
use wingmen_orchestrator.Council.World.{Review, looked, World, returned, add_event}
use wingmen_orchestrator.Council.Executor.{ReviewResult, out_of_fuel, decision, await_review}

decision-decides :
    (found : Option Review) (d : ReviewResult) → decision found ≡ some d → d ≢ out_of_fuel
decision-decides none d e same = cc
decision-decides (some r) d e same = ground (arith, e, same)

abbrev called : World → World
called w = record w { calls = suc w.calls }

abbrev seen : World → World
seen w = record (add_event (looked (w.outside.review w.looks)) (called w)) { looks = suc w.looks }

await_review-ends :
    (fuel elapsed : ℕ) (w : World)
    → 300 ≤ elapsed + 30 * fuel
    → ((await_review (suc fuel) elapsed w).0 ≢ returned out_of_fuel)
      × (30 * (await_review (suc fuel) elapsed w).1.looks ≤ 30 * w.looks + (329 - elapsed))
unfolding await_review
await_review-ends zero elapsed w h =
    let late : ltb elapsed 300 ≡ false = ground arith in rw late ((λ e. cc), omega arith)
await_review-ends (suc fuel) elapsed w h = elim (Bool-cases (ltb elapsed 300)) [
  | inr late ↦ rw late ((λ e. cc), omega arith)
  | inl early ↦
      let before : elapsed < 300 = ground (arith, early) in
      elim (Bool-cases (w.outside.db_ok w.calls)) [
        | inr e ↦ rw (early, e) ((λ p. cc), omega arith)
        | inl e ↦ elim (Option-cases (decision (w.outside.review w.looks))) [
          | inr (d, found) ↦
              rw (early, e, found)
                (
                  (λ same. decision-decides (w.outside.review w.looks) d found (cc same)),
                  omega arith,
                )
          | inl none_yet ↦
              let rest =
                await_review-ends fuel (elapsed + 30 + w.outside.look_seconds w.looks) (seen w)
                  (omega arith) in
              rw (early, e, none_yet) (rest.0, omega (arith, rest.1))
        ]
      ]
]

-- The wait for a review ends of itself, after at most ten looks, however long each takes.
pub await_review_bound :
    (w : World)
    → ((await_review 11 0 w).0 ≢ returned out_of_fuel)
      × ((await_review 11 0 w).1.looks ≤ w.looks + 10)
await_review_bound w =
    let ends = await_review-ends 10 0 w (omega arith) in (ends.0, omega (arith, ends.1))
