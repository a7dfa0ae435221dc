-- ===== src/Alerts.antt =====
-- nervous_system/paused_job_escalation.py: alerts on jobs that stay paused, each by its key in
-- notification_log. The texts are left out.
pub mod Once
pub mod Reached
mod Samples
use wingmen_orchestrator.Prelude.{
  ℕ, suc, Bool, true, false, ◌&&◌, List, [], ◌∷◌, any, ltb, ◌==◌, nat_eq, if◌then◌else◌,
}

pub data Band : Type 0 where
  urgent reminder : Band

abbrev pub same_band : Band → Band → Bool
same_band urgent urgent = true
same_band reminder reminder = true
same_band _ _ = false

-- A dedup_key: paused_escalation:<id>:urgent or paused_escalation:<id>:reminder.
pub record Key : Type 0 where
  pub band : Band
  pub job_id : ℕ

abbrev pub key : Band → ℕ → Key
key b i = record { band = b; job_id = i }

abbrev pub same_key : Key → Key → Bool
same_key k l = same_band k.band l.band && k.job_id == l.job_id

abbrev pub is_logged : Key → List Key → Bool
is_logged k log = any (λ l. same_key k l) log

-- Whether the n-th call succeeds is `outside n`. `log` has the keys of notification_log, `sent` those of
-- the messages sent, each the last first.
pub record World : Type 0 where
  pub outside : ℕ → Bool
  pub calls : ℕ
  pub log : List Key
  pub sent : List Key

abbrev pub next : World → World
next w = record w { calls = suc w.calls }

-- The INSERT behind a message; its failure is caught.
abbrev insert_key : Bool → Key → World → World
insert_key true k w = record (next w) { log = k ∷ w.log }
insert_key false k w = next w

-- The message: if it fails, there is no row, and the next sweep tries again.
abbrev send_key : Bool → Key → World → World
send_key true k w =
    let sent_world : World = record (next w) { sent = k ∷ w.sent } in
    insert_key (sent_world.outside sent_world.calls) k sent_world
send_key false k w = next w

-- The look-up of the key: if it fails, the alert is sent all the same.
abbrev look_up : Bool → Key → World → World
look_up true k w =
    if is_logged k w.log then next w else send_key (w.outside (suc w.calls)) k (next w)
look_up false k w = send_key (w.outside (suc w.calls)) k (next w)

unfoldable pub notify_once : Key → World → World
notify_once k w = look_up (w.outside w.calls) k w

-- A paused job, with its updated_at.
pub record Row : Type 0 where
  pub id : ℕ
  pub since : ℕ

unfoldable pub check_paused_job : ℕ → ℕ → Row → World → World
unfolding notify_once
check_paused_job one_hour_ago six_hours_ago r w =
    if ltb r.since six_hours_ago
    then notify_once (key urgent r.id) w
    else if ltb r.since one_hour_ago
    then notify_once (key reminder r.id) w
    else w

unfoldable pub check_each : (Row → World → World) → List Row → World → World
check_each f [] w = w
check_each f (r ∷ rows) w = check_each f rows (f r w)

-- `has_chat`: the CTO chat is configured. The SELECT that gives the rows comes before.
unfoldable pub check_paused_jobs : Bool → ℕ → ℕ → List Row → World → World
unfolding check_each check_paused_job
check_paused_jobs has_chat one_hour_ago six_hours_ago rows w =
    if has_chat then check_each (check_paused_job one_hour_ago six_hours_ago) rows w else w
