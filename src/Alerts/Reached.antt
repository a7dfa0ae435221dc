-- ===== src/Alerts/Reached.antt =====
-- No job that is old enough is passed over.
use wingmen_orchestrator.Prelude.{
  ℕ, suc, ◌<◌, ◌≡◌, true, List, [], ◌∷◌, All, ltb, Bool-cases, inl, inr, arith, nat_eq,
  if◌then◌else◌,
}
use wingmen_orchestrator.Alerts.{
  urgent, reminder, Key, key, is_logged, World, notify_once, Row, check_paused_job, check_each,
  check_paused_jobs,
}
use wingmen_orchestrator.Alerts.Once.{IsUp, same_key_self}

-- Urgent after six hours, a reminder after one.
abbrev pub key_of : ℕ → Row → Key
key_of six r = if ltb r.since six then key urgent r.id else key reminder r.id

abbrev pub IsReached : ℕ → ℕ → List Key → Row → Type 0
IsReached one six log r = r.since < one → is_logged (key_of six r) log ≡ true

notify_once_logged :
    (k : Key) (w : World)
    → IsUp w
    → IsUp (notify_once k w) × (is_logged k (notify_once k w).log ≡ true)
unfolding notify_once
notify_once_logged k w up = elim (Bool-cases (is_logged k w.log)) [
  | inl there ↦ ground (arith, up w.calls, up, there)
  | inr new ↦
      ground (arith, up w.calls, up (suc w.calls), up (suc (suc w.calls)), up, same_key_self k)
]

notify_once_keeps :
    (k l : Key) (w : World) → is_logged l w.log ≡ true → is_logged l (notify_once k w).log ≡ true
unfolding notify_once
notify_once_keeps k l w h = ground (arith, h)

module _ (one six : ℕ) where
  check_paused_job_logged :
      (r : Row) (w : World)
      → IsUp w
      → IsUp (check_paused_job one six r w) × IsReached one six (check_paused_job one six r w).log r
  unfolding check_paused_job
  check_paused_job_logged r w up = elim (Bool-cases (ltb r.since six)) [
    | inl old ↦ rw old (let l = notify_once_logged (key urgent r.id) w up in (l.0, λ h. l.1))
    | inr newer ↦ elim (Bool-cases (ltb r.since one)) [
      | inl late ↦
          rw (newer, late) (let l = notify_once_logged (key reminder r.id) w up in (l.0, λ h. l.1))
      | inr young ↦ rw (newer, young) (up, λ h. absurd (ground (arith, young, h)))
    ]
  ]

  check_paused_job_keeps :
      (l : Key) (r : Row) (w : World)
      → is_logged l w.log ≡ true
      → is_logged l (check_paused_job one six r w).log ≡ true
  unfolding check_paused_job
  check_paused_job_keeps l r w h = elim (Bool-cases (ltb r.since six)) [
    | inl old ↦ rw old (notify_once_keeps (key urgent r.id) l w h)
    | inr newer ↦ elim (Bool-cases (ltb r.since one)) [
      | inl late ↦ rw (newer, late) (notify_once_keeps (key reminder r.id) l w h)
      | inr young ↦ rw (newer, young) h
    ]
  ]

  check_each_keeps :
      (l : Key) (rows : List Row) (w : World)
      → is_logged l w.log ≡ true
      → is_logged l (check_each (check_paused_job one six) rows w).log ≡ true
  unfolding check_each
  check_each_keeps l [] w h = h
  check_each_keeps l (r ∷ rows) w h =
      check_each_keeps l rows (check_paused_job one six r w) (check_paused_job_keeps l r w h)

  check_each_reaches :
      (rows : List Row) (w : World)
      → IsUp w
      → All (IsReached one six (check_each (check_paused_job one six) rows w).log) rows
  unfolding check_each
  check_each_reaches [] w up = tt
  check_each_reaches (r ∷ rows) w up =
      let here = check_paused_job_logged r w up in
      (
        λ old. check_each_keeps (key_of six r) rows (check_paused_job one six r w) (here.1 old),
        check_each_reaches rows (check_paused_job one six r w) here.0,
      )

-- While every call succeeds, a sweep over paused jobs leaves in the log, for each job that was paused
-- before the one-hour bound, the key of its band: urgent if before the six-hour bound too, a reminder
-- if not.
pub check_paused_jobs-IsReached :
    (one six : ℕ) (rows : List Row) (w : World)
    → IsUp w
    → All (IsReached one six (check_paused_jobs true one six rows w).log) rows
unfolding check_paused_jobs
check_paused_jobs-IsReached one six rows w up = check_each_reaches one six rows w up
