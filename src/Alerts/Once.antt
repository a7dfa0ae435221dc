-- ===== src/Alerts/Once.antt =====
-- How often an alert is sent.
use wingmen_orchestrator.Prelude.{
  ℕ, suc, ◌≡◌, refl, inl, inr, true, false, List, [], ◌∷◌, ltb, Bool-cases, arith, nat_eq,
}
use wingmen_orchestrator.Alerts.{
  Band, urgent, reminder, same_band, Key, key, same_key, is_logged, World, notify_once, Row,
  check_paused_job, check_each, check_paused_jobs,
}

-- No key was sent twice, and each that was sent is in the log.
abbrev pub SentOnce : List Key → List Key → Type 0
SentOnce [] log = Unit
SentOnce (k ∷ ks) log = (is_logged k ks ≡ false) × (is_logged k log ≡ true) × SentOnce ks log

-- Every call succeeds.
abbrev pub IsUp : World → Type 0
IsUp w = (n : ℕ) → w.outside n ≡ true

same_band_self : (b : Band) → same_band b b ≡ true
same_band_self urgent = refl
same_band_self reminder = refl

pub same_key_self : (k : Key) → same_key k k ≡ true
same_key_self k = ground (arith, same_band_self k.band)

same_band_lem : (a b : Band) → same_band a b ≡ true → a ≡ b
same_band_lem urgent urgent h = refl
same_band_lem urgent reminder h = cc
same_band_lem reminder urgent h = cc
same_band_lem reminder reminder h = refl

logged_same : (k l : Key) (log : List Key) → same_key k l ≡ true → is_logged k log ≡ is_logged l log
logged_same k l log e = ground (arith, same_band_lem k.band l.band)

-- A key that is not in the log was not sent.
unsent :
    (k : Key) (ks log : List Key)
    → SentOnce ks log
    → is_logged k log ≡ false
    → is_logged k ks ≡ false
unsent k [] log s h = refl
unsent k (l ∷ ks) log s h = ground (arith, logged_same k l log, s.1, unsent k ks log s.2 h)

log_more : (k : Key) (ks log : List Key) → SentOnce ks log → SentOnce ks (k ∷ log)
log_more k [] log s = tt
log_more k (l ∷ ks) log s = (s.0, ground (arith, s.1), log_more k ks log s.2)

-- What every sweep keeps while all calls succeed.
abbrev Kept : World → World → Type 0
Kept w w' = IsUp w' × SentOnce w'.sent w'.log

notify_once-Kept : (k : Key) (w : World) → IsUp w → SentOnce w.sent w.log → Kept w (notify_once k w)
unfolding notify_once
notify_once-Kept k w up s = elim (Bool-cases (is_logged k w.log)) [
  | inl there ↦ ground (arith, up w.calls, up, s)
  | inr new ↦ ground (
    arith,
    up w.calls,
    up (suc w.calls),
    up (suc (suc w.calls)),
    up,
    s,
    unsent k w.sent w.log s new,
    same_key_self k,
    log_more k w.sent w.log s,
  )
]

check_paused_job-Kept :
    (one six : ℕ) (r : Row) (w : World)
    → IsUp w
    → SentOnce w.sent w.log
    → Kept w (check_paused_job one six r w)
unfolding check_paused_job
check_paused_job-Kept one six r w up s = elim (Bool-cases (ltb r.since six)) [
  | inl old ↦ rw old (notify_once-Kept (key urgent r.id) w up s)
  | inr newer ↦ elim (Bool-cases (ltb r.since one)) [
    | inl old ↦ rw (newer, old) (notify_once-Kept (key reminder r.id) w up s)
    | inr new ↦ rw (newer, new) (up, s)
  ]
]

check_each-Kept :
    (f : Row → World → World)
    → ((r : Row) (w : World) → IsUp w → SentOnce w.sent w.log → Kept w (f r w))
    → (rows : List Row) (w : World) → IsUp w
    → SentOnce w.sent w.log
    → Kept w (check_each f rows w)
unfolding check_each
check_each-Kept f kf [] w up s = (up, s)
check_each-Kept f kf (r ∷ rows) w up s =
    let one = kf r w up s in check_each-Kept f kf rows (f r w) one.0 one.1

-- A sweep: its one-hour and six-hour bounds, and the rows that it reads.
pub record Sweep : Type 0 where
  pub one_hour_ago : ℕ
  pub six_hours_ago : ℕ
  pub rows : List Row

unfoldable pub run_sweeps : List Sweep → World → World
run_sweeps [] w = w
run_sweeps (x ∷ xs) w =
    run_sweeps xs (check_paused_jobs true x.one_hour_ago x.six_hours_ago x.rows w)

run_sweep-Kept :
    (x : Sweep) (w : World)
    → IsUp w
    → SentOnce w.sent w.log
    → Kept w (check_paused_jobs true x.one_hour_ago x.six_hours_ago x.rows w)
unfolding check_paused_jobs
run_sweep-Kept x w up s =
    check_each-Kept (check_paused_job x.one_hour_ago x.six_hours_ago)
      (check_paused_job-Kept x.one_hour_ago x.six_hours_ago) x.rows w up s

-- While every call succeeds, and from a state where it holds, after any sequence of sweeps over paused
-- jobs, at any times and over any rows, no key was sent twice, and each that was sent is logged.
pub run_sweeps-SentOnce :
    (xs : List Sweep) (w : World)
    → IsUp w
    → SentOnce w.sent w.log
    → SentOnce (run_sweeps xs w).sent (run_sweeps xs w).log
unfolding run_sweeps
run_sweeps-SentOnce [] w up s = s
run_sweeps-SentOnce (x ∷ xs) w up s =
    let one = run_sweep-Kept x w up s in
    run_sweeps-SentOnce xs (check_paused_jobs true x.one_hour_ago x.six_hours_ago x.rows w) one.0
      one.1
