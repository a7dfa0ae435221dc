-- ===== src/Bus/Wake/Limits.antt =====
-- How often an agent is woken, and the operator told of it.
use wingmen_orchestrator.Prelude.{ℕ, ◌-◌, ◌≤◌, ◌≡◌, List, []}
use wingmen_orchestrator.Bus.Wake.{WakeFile, Request, WakeResult}
use wingmen_orchestrator.Bus.Wake.Recent.{History, note, requests, recent, Sparse}

-- The file knows all recent wakes, and the alert before the next one.
record Keeps (t : ℕ) (h : History) : Type 0 where
  known : (k n : ℕ) → k ≤ 300 → t ≤ n → recent k n h.woken ≤ recent k n h.file.wakes
  capped_wakes : Sparse 300 4 h.woken
  spaced_wakes : Sparse 45 0 h.woken
  spaced_alerts : Sparse 300 0 h.alerted
  told : (n : ℕ) → 300 ≤ n - h.file.cap_alerted → recent 300 n h.alerted ≡ 0

-- What the history becomes by an answer of the gate.
abbrev answer : Request → History → WakeResult × WakeFile → History
answer r h (result, file) = note r.now result (record h { file = file })

abbrev pub after : List Request → WakeFile → History
after rs f = requests rs (record { file = f; woken = []; alerted = [] })
