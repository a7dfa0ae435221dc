-- ===== src/Jobs/Dispatch/Passes.antt =====
-- Two passes that pick jobs, one after the other, by one dispatcher or by two.
use wingmen_orchestrator.Prelude.{
  ℕ, zero, suc, String, ◌≡◌, ◌≢◌, Bool, List, [], ◌∷◌, All, Bool-cases, inl, inr, arith, ◌==◌,
  nat_eq, string_eq,
}
use wingmen_orchestrator.Jobs.Table.{Job, returned}
use wingmen_orchestrator.Jobs.Dispatch.{claim, claim_each, candidates, pick_next_jobs}
use wingmen_orchestrator.Jobs.Dispatch.Claims.{Taken, claim-Taken, claim_keeps-Taken, Taken-claim}

claim_ids : (now i : ℕ) (t : List Job) → All (λ j. j.id ≡ i) (claim now i t).0
unfolding claim returned
claim_ids now i [] = tt
claim_ids now i (j ∷ t) = ground (arith, claim_ids now i t)

-- A row that is taken stays so through a pass, and is not picked by it.
abbrev Spared : ℕ → List Job × List Job → Type 0
Spared i (js, t) = All (λ j. j.id ≢ i) js × Taken i t

claim_each-Spared :
    (i now room : ℕ) (busy : List String) (cs t : List Job)
    → Taken i t
    → Spared i (claim_each now room busy cs t)
unfolding claim_each
claim_each-Spared i now room busy [] t h = (tt, h)
claim_each-Spared i now zero busy (c ∷ cs) t h = (tt, h)
claim_each-Spared i now (suc room) busy (c ∷ cs) t h =
    let kept = claim_keeps-Taken now i c.id t h in
    let skip = claim_each-Spared i now (suc room) busy cs t h in
    let lost = claim_each-Spared i now (suc room) busy cs (claim now c.id t).1 kept in
    let won = claim_each-Spared i now room (c.repo_name ∷ busy) cs (claim now c.id t).1 kept in
    elim (Bool-cases (c.id == i)) [
      | inl same ↦ ground (arith, skip, lost, won, Taken-claim now i t h)
      | inr other ↦ ground (arith, skip, lost, won, claim_ids now c.id t)
    ]

abbrev AllTaken : List Job × List Job → Type 0
AllTaken (js, t) = All (λ j. Taken j.id t) js

claim_each-AllTaken :
    (now room : ℕ) (busy : List String) (cs t : List Job) → AllTaken (claim_each now room busy cs t)
unfolding claim_each
claim_each-AllTaken now room busy [] t = tt
claim_each-AllTaken now zero busy (c ∷ cs) t = tt
claim_each-AllTaken now (suc room) busy (c ∷ cs) t =
    let skip = claim_each-AllTaken now (suc room) busy cs t in
    let lost = claim_each-AllTaken now (suc room) busy cs (claim now c.id t).1 in
    let won = claim_each-AllTaken now room (c.repo_name ∷ busy) cs (claim now c.id t).1 in
    let kept =
      claim_each-Spared c.id now room (c.repo_name ∷ busy) cs (claim now c.id t).1
        (claim-Taken now c.id t) in
    ground (arith, skip, lost, won, kept, claim_ids now c.id t)

pick_next_jobs-AllTaken :
    (b : Bool) (now n : ℕ) (rs : List String) (seen t : List Job)
    → AllTaken (pick_next_jobs b now rs n seen t)
unfolding pick_next_jobs
pick_next_jobs-AllTaken b now n rs seen t =
    ground (arith, claim_each-AllTaken now n rs (candidates now seen) t)

pick_next_jobs-Spared :
    (i : ℕ) (b : Bool) (now n : ℕ) (rs : List String) (seen t : List Job)
    → Taken i t
    → Spared i (pick_next_jobs b now rs n seen t)
unfolding pick_next_jobs
pick_next_jobs-Spared i b now n rs seen t h =
    ground (arith, h, claim_each-Spared i now n rs (candidates now seen) t h)

module _ (b : Bool) (now n : ℕ) (rs : List String) (seen t : List Job) where
  each_spared :
      (js : List Job)
      → All (λ j. Taken j.id t) js
      → All (λ j. All (λ k. k.id ≢ j.id) (pick_next_jobs b now rs n seen t).0) js
  each_spared [] h = tt
  each_spared (j ∷ js) h =
      ((pick_next_jobs-Spared j.id b now n rs seen t h.0).0, each_spared js h.1)

-- Of two passes, the second on the table that the first has left, whatever tables each has read its
-- candidates from and when, no job is picked by both.
pub pick_next_jobs-disjoint :
    (b c : Bool) (s u m n : ℕ) (ps qs : List String) (seen read t : List Job)
    → All
        (λ j.
          All
            (λ k. k.id ≢ j.id)
            (pick_next_jobs c u qs n read (pick_next_jobs b s ps m seen t).1).0)
        (pick_next_jobs b s ps m seen t).0
pick_next_jobs-disjoint b c s u m n ps qs seen read t =
    each_spared c u n qs read (pick_next_jobs b s ps m seen t).1 (pick_next_jobs b s ps m seen t).0
      (pick_next_jobs-AllTaken b s m ps seen t)
