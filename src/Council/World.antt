-- ===== src/Council/World.antt =====
-- One session of the council, and what its executor touches. Whether the n-th call of the database
-- succeeds, and what the n-th look at the host finds, are functions of the world, so a theorem on actions is
-- one on all their failures.
pub mod Keeps
use wingmen_orchestrator.Prelude.{
  ℕ, suc, ◌+◌, Bool, true, false, Option, none, some, List, [], ◌∷◌, if◌then◌else◌,
}
use wingmen_orchestrator.Prelude.Texts.{Text}

pub data Operation : Type 0 where
  sql_migration : Text → Operation
  shell_command : Text → List ℕ → Operation
  file_create : Text → Text → Operation
  file_edit : Text → Text → Option Text → Operation
  unknown : Operation

pub data RollbackOperation : Type 0 where
  shell_rollback sql_rollback : Text → RollbackOperation
  unknown_rollback : RollbackOperation

pub record Check : Type 0 where
  pub command : Text
  pub expected : Text

pub record Spec : Type 0 where
  pub pre_conditions : List Check
  pub operations : List Operation
  pub post_conditions : List Check
  pub rollback : List RollbackOperation

pub data Status : Type 0 where
  dry_run_pending dry_run_rejected dry_run_complete dry_run_timeout : Status
  executing complete rolled_back failed : Status

-- A row of claude_ai, by the tags that count, and when it was written.
pub record Review : Type 0 where
  pub is_pushback : Bool
  pub is_concur : Bool
  pub created_at : ℕ

pub data Tag : Type 0 where
  spec_validation_failed dry_run dry_run_rejected_row dry_run_approved_row dry_run_timeout_row : Tag
  execution_complete execution_failed : Tag
  musa_execute musa_concur : Tag

-- What has happened, as it can be told from outside. `ordered` says whether it was Musa.
pub data Event : Type 0 where
  tried : Operation → Bool → Event
  undone : RollbackOperation → Event
  looked : Option Review → Event
  became : Status → Event
  ordered : Bool → Event
  posted : Tag → Event

pub record Outside : Type 0 where
  pub db_ok : ℕ → Bool
  pub is_valid : Spec → Bool
  pub review : ℕ → Option Review
  pub look_seconds : ℕ → ℕ
  pub sql_ok : ℕ → Bool
  pub exit_code : ℕ → Option ℕ
  pub write_ok : ℕ → Bool
  pub exists : ℕ → Bool
  pub sha256 : ℕ → Text
  pub output : ℕ → Text

pub record World : Type 0 where
  pub outside : Outside
  pub calls : ℕ
  pub looks : ℕ
  pub status : Option Status
  pub spec : Option Spec
  pub spec_approved : Bool
  pub is_ended : Bool
  pub trail : List Event

pub data Outcome {ℓ} (A : Type ℓ) : Type ℓ where
  returned : A → Outcome A
  raised : Outcome A

abbrev pub M : Type 0 → Type 0
M A = World → Outcome A × World

abbrev pub then_do : {A B : Type 0} → (A → M B) → Outcome A × World → Outcome B × World
then_do f (returned a, w) = f a w
then_do f (raised, w) = (raised, w)

infixl 5 ◌>>=◌ ◌>>◌
abbrev pub ◌>>=◌ : {A B : Type 0} → M A → (A → M B) → M B
◌>>=◌ m f w = then_do f (m w)

abbrev pub ◌>>◌ : {B : Type 0} → M (Unit {0}) → M B → M B
m >> k = m >>= λ _. k

abbrev pub pure : {A : Type 0} → A → M A
pure a w = (returned a, w)

abbrev pub raise : M (Unit {0})
raise w = (raised, w)

-- try: m except Exception: k
abbrev pub or_else : M (Unit {0}) → Outcome (Unit {0}) × World → Outcome (Unit {0}) × World
or_else k (returned a, w) = (returned a, w)
or_else k (raised, w) = k w

abbrev pub add_event : Event → World → World
add_event e w = record w { trail = e ∷ w.trail }

-- A call of the database, and what it does if it succeeds.
unfoldable pub call_db : (World → World) → M (Unit {0})
call_db act w =
    let called = record w { calls = suc w.calls } in
    if w.outside.db_ok w.calls then (returned tt, act called) else (raised, called)

abbrev pub write_status : Status → World → World
write_status s w = record (add_event (became s) w) { status = some s }

unfoldable pub update_status : Status → M (Unit {0})
unfolding call_db
update_status s = call_db (write_status s)

-- The round is read, and the row inserted.
unfoldable pub post_row : Tag → M (Unit {0})
unfolding call_db
post_row t = call_db (λ w. w) >> call_db (add_event (posted t))
