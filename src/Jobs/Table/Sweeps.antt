-- ===== src/Jobs/Table/Sweeps.antt =====
-- A sweep reads rows and updates each by its id. On a table with unique ids, and with nothing else
-- running, it is one update of the rows that it reads.
use wingmen_orchestrator.Prelude.{
  ℕ, ◌≡◌, ◌≢◌, refl, ◌∙◌, ap, Bool, true, false, ◌&&◌, List, [], ◌∷◌, All, map, Bool-cases, inl,
  inr, arith, nat_eq, if◌then◌else◌,
}
use wingmen_orchestrator.Jobs.Table.{Job, select, update_where, update_one, for_each, UniqueIds}

abbrev pub Others : ℕ → List Job → Type 0
Others i t = All (λ k. k.id ≢ i) t

select-Others : (p : Job → Bool) (i : ℕ) (t : List Job) → Others i t → Others i (select p t)
unfolding select
select-Others p i [] h = tt
select-Others p i (j ∷ t) h = elim (Bool-cases (p j)) [
  | inl yes_ ↦ rw yes_ (h.0, select-Others p i t h.1)
  | inr no_ ↦ rw no_ (select-Others p i t h.1)
]

module _ (guard : Job → Bool) (set : Job → Job → Job) where
  update_absent : (r : Job) (t : List Job) → Others r.id t → update_one guard set r t ≡ t
  unfolding update_where
  update_absent r [] h = refl
  update_absent r (j ∷ t) h = ground (arith, h.0, update_absent r t h.1)

  sweep_rest :
      (rs : List Job) (j : Job) (t : List Job)
      → Others j.id rs
      → for_each (update_one guard set) rs (j ∷ t) ≡ j ∷ for_each (update_one guard set) rs t
  unfolding for_each update_where
  sweep_rest [] j t h = refl
  sweep_rest (r ∷ rs) j t h =
      ap (λ x. for_each (update_one guard set) rs (x ∷ update_one guard set r t))
        (ground (arith, h.0))
      ∙ sweep_rest rs j (update_one guard set r t) h.1

abbrev pub set_if : Bool → Job → Job → Job
set_if b x y = if b then x else y

-- What one sweep does to a row.
abbrev pub swept : (Job → Bool) → (Job → Bool) → (Job → Job → Job) → Job → Job
swept p guard set j = set_if (p j && guard j) (set j j) j

module _ (p guard : Job → Bool) (set : Job → Job → Job)
    (keeps_id : (r j : Job) → (set r j).id ≡ j.id) where
  first_row :
      (j : Job) (t : List Job)
      → Others j.id t
      → update_one guard set j (j ∷ t) ≡ set_if (guard j) (set j j) j ∷ t
  unfolding update_where
  first_row j t h = ground (arith, update_absent guard set j t h)

  first_id : (j : Job) → (set_if (guard j) (set j j) j).id ≡ j.id
  first_id j = elim (Bool-cases (guard j)) [ inl g ↦ rw g (keeps_id j j) | inr g ↦ rw g refl ]

  select_read : (j : Job) (t : List Job) → p j ≡ true → select p (j ∷ t) ≡ j ∷ select p t
  unfolding select
  select_read j t h = rw h refl

  select_skipped : (j : Job) (t : List Job) → p j ≡ false → select p (j ∷ t) ≡ select p t
  unfolding select
  select_skipped j t h = rw h refl

  swept_read : (j : Job) → p j ≡ true → set_if (guard j) (set j j) j ≡ swept p guard set j
  swept_read j h = rw h refl

  swept_skipped : (j : Job) → p j ≡ false → j ≡ swept p guard set j
  swept_skipped j h = rw h refl

  read_step :
      (rs : List Job) (j : Job) (t : List Job)
      → Others j.id t
      → for_each (update_one guard set) (j ∷ rs) (j ∷ t)
        ≡ for_each (update_one guard set) rs (set_if (guard j) (set j j) j ∷ t)
  unfolding for_each
  read_step rs j t h = ap (λ x. for_each (update_one guard set) rs x) (first_row j t h)

  pub for_each-update_one :
      (t : List Job)
      → UniqueIds t
      → for_each (update_one guard set) (select p t) t ≡ map (swept p guard set) t
  for_each-update_one [] u = unfold for_each select in refl
  for_each-update_one (j ∷ t) u = elim (Bool-cases (p j)) [
    | inl read ↦
        ap (λ rs. for_each (update_one guard set) rs (j ∷ t)) (select_read j t read)
        ∙ read_step (select p t) j t u.0
        ∙ sweep_rest guard set (select p t) (set_if (guard j) (set j j) j) t
            (rw (first_id j) (select-Others p j.id t u.0))
        ∙ ap (λ x. set_if (guard j) (set j j) j ∷ x) (for_each-update_one t u.1)
        ∙ ap (λ x. x ∷ map (swept p guard set) t) (swept_read j read)
    | inr skipped ↦
        ap (λ rs. for_each (update_one guard set) rs (j ∷ t)) (select_skipped j t skipped)
        ∙ sweep_rest guard set (select p t) j t (select-Others p j.id t u.0)
        ∙ ap (λ x. j ∷ x) (for_each-update_one t u.1)
        ∙ ap (λ x. x ∷ map (swept p guard set) t) (swept_skipped j skipped)
  ]
