-- ===== src/Jobs/Dispatch/Claims.antt =====
-- Who gets a job.
use wingmen_orchestrator.Prelude.{
  ℕ, ◌≡◌, ◌≢◌, refl, false, List, [], ◌∷◌, All, arith, nat_eq, string_eq,
}
use wingmen_orchestrator.Jobs.Table.{Job, update_where, returned}
use wingmen_orchestrator.Jobs.Dispatch.{is_claimable, claim}

-- No row can be claimed under the id.
abbrev pub Taken : ℕ → List Job → Type 0
Taken i t = All (λ j. is_claimable i j ≡ false) t

pub claim-Taken : (now i : ℕ) (t : List Job) → Taken i (claim now i t).1
unfolding claim update_where
claim-Taken now i [] = tt
claim-Taken now i (j ∷ t) = (ground arith, claim-Taken now i t)

pub claim_keeps-Taken : (now i k : ℕ) (t : List Job) → Taken i t → Taken i (claim now k t).1
unfolding claim update_where
claim_keeps-Taken now i k [] h = tt
claim_keeps-Taken now i k (j ∷ t) h = (ground (arith, h.0), claim_keeps-Taken now i k t h.1)

pub Taken-claim : (now i : ℕ) (t : List Job) → Taken i t → (claim now i t).0 ≡ []
unfolding claim returned
Taken-claim now i [] h = refl
Taken-claim now i (j ∷ t) h = ground (arith, h.0, Taken-claim now i t h.1)

abbrev won_by : ℕ → List Job → List ℕ → List ℕ
won_by i [] won = won
won_by i (j ∷ js) won = i ∷ won

-- Claims one after another, each by any dispatcher at any time: the ids of those that succeed.
unfoldable pub claim_all : List (ℕ × ℕ) → List Job → List ℕ
claim_all [] t = []
claim_all ((now, i) ∷ cs) t = won_by i (claim now i t).0 (claim_all cs (claim now i t).1)

abbrev pub Distinct : List ℕ → Type 0
Distinct [] = Unit
Distinct (i ∷ is) = All (λ k. k ≢ i) is × Distinct is

won_by-All :
    (i k : ℕ) (js : List Job) (won : List ℕ)
    → (k ≡ i → js ≡ [])
    → All (λ x. x ≢ i) won
    → All (λ x. x ≢ i) (won_by k js won)
won_by-All i k [] won f h = h
won_by-All i k (j ∷ js) won f h = ((λ e. cc (f e)), h)

never_again :
    (i : ℕ) (cs : List (ℕ × ℕ)) (t : List Job) → Taken i t → All (λ k. k ≢ i) (claim_all cs t)
unfolding claim_all
never_again i [] t h = tt
never_again i ((now, k) ∷ cs) t h =
    won_by-All i k (claim now k t).0 (claim_all cs (claim now k t).1)
      (λ e. rw e (Taken-claim now i t h))
      (never_again i cs (claim now k t).1 (claim_keeps-Taken now i k t h))

won_by-Distinct :
    (i : ℕ) (js : List Job) (won : List ℕ)
    → All (λ k. k ≢ i) won
    → Distinct won
    → Distinct (won_by i js won)
won_by-Distinct i [] won h d = d
won_by-Distinct i (j ∷ js) won h d = (h, d)

-- In any sequence of claims, by any number of dispatchers, on any table, no job is won twice.
pub claim_all-Distinct : (cs : List (ℕ × ℕ)) (t : List Job) → Distinct (claim_all cs t)
unfolding claim_all
claim_all-Distinct [] t = tt
claim_all-Distinct ((now, i) ∷ cs) t =
    won_by-Distinct i (claim now i t).0 (claim_all cs (claim now i t).1)
      (never_again i cs (claim now i t).1 (claim-Taken now i t))
      (claim_all-Distinct cs (claim now i t).1)
