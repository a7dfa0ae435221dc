-- ===== src/Jobs/Dispatch/Picks.antt =====
-- Which jobs a pass picks.
use wingmen_orchestrator.Prelude.{
  ℕ, zero, suc, ◌≤◌, String, ◌≡◌, refl, Bool, false, List, [], ◌∷◌, All, any, length, take,
  Bool-cases, inl, inr, arith, ◌==◌, nat_eq, string_eq,
}
use wingmen_orchestrator.Jobs.Table.{Job, running, select, update_where, returned}
use wingmen_orchestrator.Jobs.Dispatch.{
  is_candidate, comes_before, insert, sort, candidates, is_claimable, claim, claim_each,
  pick_next_jobs,
}

-- The row has the candidate's repo if it has its id.
abbrev pub Agrees : Job → Job → Type 0
Agrees c j = j.id ≡ c.id → j.repo_name ≡ c.repo_name

-- Each job was taken into running, and is in none of the repos nor in that of a job before it.
abbrev pub OnePerRepo : List String → List Job → Type 0
OnePerRepo busy [] = Unit
OnePerRepo busy (j ∷ js) =
    (any (λ r. r == j.repo_name) busy ≡ false)
    × (j.status ≡ running)
    × OnePerRepo (j.repo_name ∷ busy) js

insert-All : (P : Job → Type 0) (j : Job) (ks : List Job) → P j → All P ks → All P (insert j ks)
unfolding insert
insert-All P j [] p h = (p, tt)
insert-All P j (k ∷ ks) p h = elim (Bool-cases (comes_before j k)) [
  | inl first ↦ rw first (p, h)
  | inr later ↦ rw later (h.0, insert-All P j ks p h.1)
]

sort-All : (P : Job → Type 0) (js : List Job) → All P js → All P (sort js)
unfolding sort
sort-All P [] h = tt
sort-All P (j ∷ js) h = insert-All P j (sort js) h.0 (sort-All P js h.1)

select-All : (P : Job → Type 0) (p : Job → Bool) (t : List Job) → All P t → All P (select p t)
unfolding select
select-All P p [] h = tt
select-All P p (j ∷ t) h = elim (Bool-cases (p j)) [
  | inl yes_ ↦ rw yes_ (h.0, select-All P p t h.1)
  | inr no_ ↦ rw no_ (select-All P p t h.1)
]

take-All : (P : Job → Type 0) (n : ℕ) (js : List Job) → All P js → All P (take n js)
take-All P zero js h = tt
take-All P (suc n) [] h = tt
take-All P (suc n) (j ∷ js) h = (h.0, take-All P n js h.1)

claim_row :
    (now : ℕ) (c : Job) (t : List Job)
    → All (Agrees c) t
    → All (λ j. (j.repo_name ≡ c.repo_name) × (j.status ≡ running)) (claim now c.id t).0
unfolding claim returned
claim_row now c [] h = tt
claim_row now c (j ∷ t) h = elim (Bool-cases (is_claimable c.id j)) [
  | inl won ↦ rw won ((h.0 (ground arith), refl), claim_row now c t h.1)
  | inr lost ↦ rw lost (claim_row now c t h.1)
]

claim-Agrees :
    (now i : ℕ) (c : Job) (t : List Job) → All (Agrees c) t → All (Agrees c) (claim now i t).1
unfolding claim update_where
claim-Agrees now i c [] h = tt
claim-Agrees now i c (j ∷ t) h = elim (Bool-cases (is_claimable i j)) [
  | inl won ↦ rw won (h.0, claim-Agrees now i c t h.1)
  | inr lost ↦ rw lost (h.0, claim-Agrees now i c t h.1)
]

claim-All_agree :
    (now i : ℕ) (cs t : List Job)
    → All (λ c. All (Agrees c) t) cs
    → All (λ c. All (Agrees c) (claim now i t).1) cs
claim-All_agree now i [] t h = tt
claim-All_agree now i (c ∷ cs) t h = (claim-Agrees now i c t h.0, claim-All_agree now i cs t h.1)

-- What a pass may return.
abbrev pub Fits : ℕ → List String → List Job → Type 0
Fits room busy js = (length js ≤ room) × OnePerRepo busy js

claim_each-Fits :
    (now room : ℕ) (busy : List String) (cs t : List Job)
    → All (λ c. All (Agrees c) t) cs
    → Fits room busy (claim_each now room busy cs t).0
unfolding claim_each
claim_each-Fits now room busy [] t h = (omega arith, tt)
claim_each-Fits now zero busy (c ∷ cs) t h = (omega arith, tt)
claim_each-Fits now (suc room) busy (c ∷ cs) t h =
    let later = claim-All_agree now c.id cs t h.1 in
    let skip = claim_each-Fits now (suc room) busy cs t h.1 in
    let lost = claim_each-Fits now (suc room) busy cs (claim now c.id t).1 later in
    let won = claim_each-Fits now room (c.repo_name ∷ busy) cs (claim now c.id t).1 later in
    ground (arith, claim_row now c t h.0, skip, lost, won)

-- If no row of the table has a candidate's id and another repo, a pass picks at most `max_picks` jobs,
-- each of them now running, no two of one repo and none of a repo that is already running. The table
-- that the claims meet need not be the one that the candidates were read from.
pub pick_next_jobs-Fits :
    (enabled : Bool) (now max_picks : ℕ) (running_repos : List String) (seen t : List Job)
    → All (λ c. All (Agrees c) t) seen
    → Fits max_picks running_repos (pick_next_jobs enabled now running_repos max_picks seen t).0
unfolding pick_next_jobs candidates
pick_next_jobs-Fits enabled now max_picks running_repos seen t h =
    let cs = take 20 (sort (select (is_candidate now) seen)) in
    let kept =
      take-All (λ c. All (Agrees c) t) 20 _
        (sort-All (λ c. All (Agrees c) t) _
          (select-All (λ c. All (Agrees c) t) (is_candidate now) seen h)) in
    ground (arith, claim_each-Fits now max_picks running_repos cs t kept)
