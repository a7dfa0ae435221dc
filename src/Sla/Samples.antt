-- ===== src/Sla/Samples.antt =====
-- Sample scans.
use wingmen_orchestrator.Prelude.{
  String, ℕ, ◌≤◌, ◌≡◌, refl, Bool, true, false, not, ◌&&◌, ◌||◌, Option, none, some, List, [], ◌∷◌,
  is_empty,
}
use wingmen_orchestrator.Prelude.Texts.{codes}
use wingmen_orchestrator.Bus.Wake.{p1}
use wingmen_orchestrator.Sla.{
  Kind, unread, unresponded, Violation, Entry, Settings, Calls, page, nudge, page_operator,
  escalate, renudge_once, handle, handle_each, insert_sorted, sorted, save_state, run,
}
use wingmen_orchestrator.Sla.Fetch.{Row, put, put_each, without_self_notes, fetch_actionable}
use wingmen_orchestrator.Sla.Pages.{Acts, scan_of, trail_of, run_actions}
use wingmen_orchestrator.Sla.Rounds.{Round, rounds, tried, delivered}
use wingmen_orchestrator.Sla.Once.{rounds_page_once, failed_page_lost}

abbrev settings : Settings
settings = record {
  renudge_backoff_min = 15;
  hard_escalate_p0_min = 10;
  hard_escalate_p1_min = 20;
  min_nudges_before_escalate = 1;
  max_pages_per_run = 3;
  circuit_breaker_max = 25;
}

-- No console is there, and pages get through or not.
abbrev calls : Bool → Calls
calls delivers = record {
  recheck = λ i. some (false, false);
  lookup_ok = λ i. true;
  text_of = λ i. i ∷ [];
  nazim_alive = false;
  internal_ok = λ i. true;
  send_ok = λ i. delivers;
  audit_ok = λ i. true;
}

abbrev stall : Kind → Violation
stall k = record {
  message_id = 7;
  agent = codes "cai";
  priority = p1;
  kind = k;
  elapsed_minutes = 30;
}

abbrev lost : ℕ → Kind → Option Entry
lost i k = none

abbrev entry : Entry
entry = record {
  nudge_count = 1;
  last_nudge_ts = 1000;
  paged = false;
  paged_ts = 0;
  last_seen_ts = 1000;
}

abbrev nudged_before : ℕ → Kind → Option Entry
nudged_before i k = some entry

abbrev stalls : List Violation
stalls = stall unread ∷ stall unresponded ∷ []

-- Without an entry the agent is nudged, once for both; with one the operator is paged, once for both.
first_scan_test :
    trail_of false true true (calls true) settings 2000 stalls lost [] ≡ nudge (codes "cai") ∷ []
unfolding run sorted insert_sorted handle_each handle escalate renudge_once save_state
first_scan_test = refl

second_scan_test :
    trail_of false true true (calls true) settings 3000 stalls nudged_before []
    ≡ page (stall unread) 1 true ∷ []
unfolding run sorted insert_sorted handle_each handle escalate page_operator renudge_once save_state
second_scan_test = refl

run_actions_example :
    Acts settings
      (calls true)
      (codes "cai")
      false
      (trail_of false true true (calls true) settings 3000 stalls nudged_before [])
    × (((false || not true)
          && not (
              is_empty
                (trail_of false true true (calls true) settings 3000 stalls nudged_before [])))
        ≡ false)
run_actions_example =
    run_actions false true true (calls true) settings 3000 stalls nudged_before [] (codes "cai")

abbrev round : Bool → Round
round delivers = record {
  asked_dry = false;
  has_pen = true;
  write_ok = false;
  calls = calls delivers;
  settings = settings;
  now = 3000;
  violations = stalls;
  file = nudged_before;
}

rounds_page_once_example :
    tried 7 (rounds (round true ∷ round true ∷ []) (scan_of lost [])).trail ≤ 1
unfolding tried
rounds_page_once_example =
    rounds_page_once 7 (round true ∷ round true ∷ []) (scan_of lost [])
      ((refl, refl), ((refl, refl), tt)) refl

failed_page_lost_example :
    delivered 7
      (rounds
        (round true ∷ [])
        (page_operator false (calls false) 3000 (stall unread) entry (scan_of lost []))).trail
    ≡ delivered 7 (scan_of lost []).trail
failed_page_lost_example =
    failed_page_lost (calls false) 3000 (stall unread) entry (scan_of lost []) (round true ∷ [])
      refl refl (refl, tt)

abbrev row : String → ℕ → Row
row from_agent message_id = record {
  violation = record (stall unread) { message_id = message_id };
  from_agent = some (codes from_agent);
}

-- The self-note of the view is dropped, that of the P0 query is not.
fetch_test :
    fetch_actionable [] (row "cai" 1 ∷ row "cc-infra" 2 ∷ []) (row "cai" 3 ∷ [])
    ≡ row "cc-infra" 2 ∷ row "cai" 3 ∷ []
unfolding fetch_actionable without_self_notes put_each put
fetch_test = refl
