-- ===== src/LongCaller/Samples.antt =====
-- Runs of the watchdog on a sample caller.
use wingmen_orchestrator.Prelude.{◌≡◌, refl, true, false, none, some, [], ◌∷◌}
use wingmen_orchestrator.Prelude.Texts.{codes}
use wingmen_orchestrator.LongCaller.Decision.{
  SignalResult, ContentShape, Caller, decide_kill_with_pid_verify, decide_kill, decide_shape,
  any_unobservable, all_match, is_panic_set,
}
use wingmen_orchestrator.LongCaller.Sweep.{
  Flagged, World, terminated, pre_kill_audit, observed, alerted, kill_logged, long_caller_sweep,
  sweep_one, actuate, kill_caller, attempt, find_policy, match_caller,
}
use wingmen_orchestrator.LongCaller.Sweep.Kills.{
  AllJustified, ToKill, long_caller_sweep-AllJustified,
}
use wingmen_orchestrator.LongCaller.Endpoint.{
  fresh, unreachable, back_online, probe_all, record_probe,
}

abbrev yes_signal : SignalResult
yes_signal = record { matched = some true; unobservable = false }

abbrev loop_shape : ContentShape
loop_shape = record { signal_a = yes_signal; signal_b = yes_signal; signal_c = yes_signal }

abbrev looping : Flagged
looping = record {
  cc_identity = "cc-loop";
  parent_pid = some 4242;
  content_shape = some loop_shape;
  cwd = some (codes "/Users/sheikhmusa/wingmen/x");
}

abbrev loop_caller : Caller
loop_caller = record {
  caller_name = "cc-loop";
  registered = false;
  registered_policy = none;
  parent_pid = some 4242;
  content_shape = some loop_shape;
}

abbrev calm_world : World
calm_world = record { outside = λ i. true; calls = 0; log = [] }

kill_test :
    (long_caller_sweep none [] (looping ∷ []) calm_world).1.log
    ≡ kill_logged "cc-loop" 4242
      ∷ alerted "cc-loop" 4242
      ∷ terminated "cc-loop" 4242
      ∷ pre_kill_audit "cc-loop" 4242
      ∷ observed "cc-loop"
      ∷ []
unfolding long_caller_sweep sweep_one actuate kill_caller attempt find_policy match_caller
    decide_kill_with_pid_verify decide_kill decide_shape any_unobservable all_match is_panic_set
kill_test = refl

outage_test :
    probe_all
      ((false, 10) ∷ (false, 309) ∷ (false, 310) ∷ (false, 400) ∷ (true, 500) ∷ [])
      (fresh 300)
    ≡ unreachable ∷ back_online ∷ []
unfolding probe_all record_probe
outage_test = refl

long_caller_sweep-AllJustified_example :
    AllJustified
      (ToKill none [] (looping ∷ []))
      (long_caller_sweep none [] (looping ∷ []) calm_world).1.log
long_caller_sweep-AllJustified_example =
    long_caller_sweep-AllJustified none [] (looping ∷ []) calm_world refl
