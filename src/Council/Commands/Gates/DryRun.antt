-- ===== src/Council/Commands/Gates/DryRun.antt =====
-- A dry run passes its gate by a review that concurs.
use wingmen_orchestrator.Prelude.{
  ℕ, zero, suc, ◌+◌, ◌≡◌, refl, inl, inr, true, Option, none, some, List, ◌∷◌, arith, ltb,
  Bool-cases, Option-cases,
}
use wingmen_orchestrator.Council.World.{
  Spec, Status, dry_run_rejected, dry_run_complete, dry_run_timeout, failed, Review, Tag,
  spec_validation_failed, dry_run, dry_run_rejected_row, dry_run_approved_row, dry_run_timeout_row,
  Event, looked, World, Outcome, returned, raised, then_do, ◌>>◌, add_event, write_status, call_db,
  update_status, post_row,
}
use wingmen_orchestrator.Council.World.Keeps.{Keeps, bind-Keeps}
use wingmen_orchestrator.Council.Executor.{
  ReviewResult, approved, rejected, timed_out, out_of_fuel, decision, await_review, settle,
  handle_dry_run,
}
use wingmen_orchestrator.Council.Commands.Gates.{
  is_concurred, IsGated, IsPlain, write_status-IsGated, update_status-IsGated, post_row-IsGated,
}

abbrev Decided : Outcome ReviewResult × World → Type 0
Decided (returned approved, w) = is_concurred w.trail ≡ true
Decided _ = Unit

-- Gated, and with a concurring review before it if that is the answer.
abbrev Told : Outcome ReviewResult × World → Type 0
Told r = IsGated r.1 × Decided r

decision-approved :
    (found : Option Review) (es : List Event)
    → decision found ≡ some approved
    → is_concurred (looked found ∷ es) ≡ true
decision-approved none es e = cc
decision-approved (some r) es e = ground (arith, e)

decided :
    (d : ReviewResult) (found : Option Review) (w : World)
    → decision found ≡ some d
    → IsGated (record w { trail = looked found ∷ w.trail })
    → Told (returned d, record w { trail = looked found ∷ w.trail })
decided approved found w e h = (h, decision-approved found w.trail e)
decided rejected found w e h = (h, tt)
decided timed_out found w e h = (h, tt)
decided out_of_fuel found w e h = (h, tt)

await_review-Told : (fuel elapsed : ℕ) (w : World) → IsGated w → Told (await_review fuel elapsed w)
unfolding await_review
await_review-Told zero elapsed w h = (h, tt)
await_review-Told (suc fuel) elapsed w h = elim (Bool-cases (ltb elapsed 300)) [
  | inr late ↦ rw late (h, tt)
  | inl early ↦ elim (Bool-cases (w.outside.db_ok w.calls)) [
    | inr e ↦ rw (early, e) (record { gated = h.gated; fits = h.fits }, tt)
    | inl e ↦ elim (Option-cases (decision (w.outside.review w.looks))) [
      | inl none_yet ↦
          rw (early, e, none_yet)
            (await_review-Told fuel (elapsed + 30 + w.outside.look_seconds w.looks)
              (record (add_event (looked (w.outside.review w.looks)) w) {
                calls = suc w.calls;
                looks = suc w.looks;
              })
              (record { gated = h.gated; fits = h.fits }))
      | inr (d, found) ↦
          rw (early, e, found)
            (decided d (w.outside.review w.looks)
              (record w { calls = suc w.calls; looks = suc w.looks }) found
              (record { gated = h.gated; fits = h.fits }))
    ]
  ]
]

-- The next call of the database has been made.
abbrev called : World → World
called w = record w { calls = suc w.calls }

plain_write : (s : Status) (w : World) → IsPlain s → IsGated w → IsGated (write_status s (called w))
plain_write s w p h =
    write_status-IsGated s (called w) p (record { gated = h.gated; fits = h.fits })

status_row :
    (s : Status) (t : Tag) (w : World)
    → IsGated w
    → IsGated (write_status s (called w))
    → IsGated ((update_status s >> post_row t) w).1
unfolding update_status call_db
status_row s t w h written = elim (Bool-cases (w.outside.db_ok w.calls)) [
  | inl e ↦ rw e (post_row-IsGated t (write_status s (called w)) written)
  | inr e ↦ rw e (record { gated = h.gated; fits = h.fits })
]

settle-IsGated : (r : Outcome ReviewResult × World) → Told r → IsGated (then_do settle r).1
unfolding settle
settle-IsGated (raised, w) h = h.0
settle-IsGated (returned rejected, w) h =
    status_row dry_run_rejected dry_run_rejected_row w h.0 (plain_write dry_run_rejected w tt h.0)
settle-IsGated (returned timed_out, w) h =
    status_row dry_run_timeout dry_run_timeout_row w h.0 (plain_write dry_run_timeout w tt h.0)
settle-IsGated (returned out_of_fuel, w) h = h.0
settle-IsGated (returned approved, w) h =
    status_row dry_run_complete dry_run_approved_row w h.0
      (record { gated = h.0.gated; fits = rw h.1 refl })

first-Told :
    (r : Outcome (Unit {0}) × World) → IsGated r.1 → Told (then_do (λ u. await_review 11 0) r)
first-Told (returned u, w) h = await_review-Told 11 0 w h
first-Told (raised, w) h = (h, tt)

pub handle_dry_run-IsGated : (spec : Option Spec) → Keeps IsGated (handle_dry_run spec)
unfolding handle_dry_run
handle_dry_run-IsGated none w h = update_status-IsGated failed tt w h
handle_dry_run-IsGated (some spec) w h = elim (Bool-cases (w.outside.is_valid spec)) [
  | inr e ↦ rw e (
      bind-Keeps IsGated (post_row spec_validation_failed) (λ u. update_status failed)
        (post_row-IsGated spec_validation_failed) (λ u. update_status-IsGated failed tt) w h)
  | inl e ↦ rw e (settle-IsGated _ (first-Told (post_row dry_run w) (post_row-IsGated dry_run w h)))
]
