-- ===== src/Stalls.antt =====
-- nervous_system/queue_stall_detector.py. A call may fail for each job anew; the rows of the log are the
-- jobs of their keys, and times are numbers in one unit.
pub mod Once
mod Samples
use wingmen_orchestrator.Prelude.{
  ℕ, Bool, true, false, not, ◌&&◌, Option, none, some, List, [], ◌∷◌, any, ltb, ◌==◌, nat_eq,
  if◌then◌else◌,
}

pub record Job : Type 0 where
  pub id : ℕ
  pub is_queued : Bool
  pub created_at : ℕ

-- Which calls of a sweep succeed: the look-up of the key, the message, the row, the step of the recovery.
pub record Net : Type 0 where
  pub dedup_ok : ℕ → Bool
  pub send_ok : ℕ → Bool
  pub log_ok : ℕ → Bool
  pub recover_ok : ℕ → Bool

pub record World : Type 0 where
  pub log : List ℕ
  pub sent : List ℕ

abbrev pub is_logged : ℕ → List ℕ → Bool
is_logged i log = any (λ k. k == i) log

-- A look-up that fails is as one that finds nothing.
abbrev pub check_job : Net → ℕ → Job → World → World
check_job net cutoff j w =
    if not (ltb j.created_at cutoff)
    then w
    else if net.dedup_ok j.id && is_logged j.id w.log
    then w
    else if not (net.send_ok j.id)
    then w
    else record { log = if net.log_ok j.id then j.id ∷ w.log else w.log; sent = j.id ∷ w.sent }

unfoldable pub check_each : Net → ℕ → List Job → World → World
check_each net cutoff [] w = w
check_each net cutoff (j ∷ js) w =
    let next = if j.is_queued then check_job net cutoff j w else w in check_each net cutoff js next

-- A job that is there and no longer queued.
unfoldable pub has_left : ℕ → List Job → Bool
has_left i [] = false
has_left i (j ∷ js) = let rest = has_left i js in if j.id == i then not j.is_queued else rest

-- The recovery sweep: an exception ends it.
unfoldable pub recover : Net → List Job → List ℕ → List ℕ
unfolding has_left
recover net jobs [] = []
recover net jobs (i ∷ log) =
    let rest = recover net jobs log in
    if not (net.recover_ok i) then i ∷ log else if has_left i jobs then rest else i ∷ rest

-- The table at the start of a sweep, and at its recovery.
unfoldable pub check_queue_stalls : Bool → Net → ℕ → List Job → List Job → World → World
unfolding check_each recover
check_queue_stalls has_chat net cutoff jobs later w =
    if not has_chat
    then w
    else let v = check_each net cutoff jobs w in record v { log = recover net later v.log }
