-- ===== src/Jobs/Table.antt =====
-- The rows of `jobs`, and the statements that the program sends for them.
pub mod Sweeps
use wingmen_orchestrator.Prelude.{
  ℕ, ◌≢◌, String, Bool, true, false, ◌&&◌, Option, List, [], ◌∷◌, All, ◌==◌, nat_eq, if◌then◌else◌,
}
use wingmen_orchestrator.Prelude.Texts.{Text}

pub data Status : Type 0 where
  pending_review queued running completed failed paused cancelled : Status

pub record Job : Type 0 where
  pub id : ℕ
  pub repo_name : String
  pub status : Status
  pub priority : ℕ
  pub created_at : ℕ
  pub updated_at : ℕ
  pub retry_after : Option ℕ
  pub fail_count : ℕ
  pub result_summary : Option Text

abbrev pub is_queued : Status → Bool
is_queued queued = true
is_queued _ = false

abbrev pub is_running : Status → Bool
is_running running = true
is_running _ = false

abbrev pub is_paused : Status → Bool
is_paused paused = true
is_paused _ = false

-- SELECT * WHERE p
unfoldable pub select : (Job → Bool) → List Job → List Job
select p [] = []
select p (j ∷ t) = let rest = select p t in if p j then j ∷ rest else rest

-- UPDATE SET f WHERE p: the table that it leaves
unfoldable pub update_where : (Job → Bool) → (Job → Job) → List Job → List Job
update_where p f [] = []
update_where p f (j ∷ t) = (if p j then f j else j) ∷ update_where p f t

-- The rows that the same UPDATE returns.
unfoldable pub returned : (Job → Bool) → (Job → Job) → List Job → List Job
returned p f [] = []
returned p f (j ∷ t) = let rest = returned p f t in if p j then f j ∷ rest else rest

-- An UPDATE WHERE id and a guard.
abbrev pub update_one : (Job → Bool) → (Job → Job → Job) → Job → List Job → List Job
update_one guard set r t = update_where (λ j. j.id == r.id && guard j) (set r) t

-- One UPDATE for each of the rows read before.
unfoldable pub for_each : (Job → List Job → List Job) → List Job → List Job → List Job
for_each f [] t = t
for_each f (r ∷ rs) t = for_each f rs (f r t)

-- The primary key.
abbrev pub UniqueIds : List Job → Type 0
UniqueIds [] = Unit
UniqueIds (j ∷ t) = All (λ k. k.id ≢ j.id) t × UniqueIds t
