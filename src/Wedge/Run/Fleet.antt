-- ===== src/Wedge/Run/Fleet.antt =====
-- What a run may do to the fleet.
use wingmen_orchestrator.Prelude.{
  ◌+◌, ◌≡◌, refl, true, ◌&&◌, List, [], ◌∷◌, ◌⊎◌, All, ltb, Bool-cases, inl, inr,
}
use wingmen_orchestrator.Wedge.{Settings, AgentObs}
use wingmen_orchestrator.Wedge.Scan.{deadman, Effect, paged, Scan}
use wingmen_orchestrator.Wedge.Scan.Actions.{Allowed, append-All, handle-Allowed}
use wingmen_orchestrator.Wedge.Run.{
  State, Call, get, or_empty, scan_of, last_known, deadman_page, handle_agent, handle_each, run,
}

-- The effect is allowed for one of the observations.
abbrev pub AllowedFor : Scan → List AgentObs → Effect → Type 0
AllowedFor s [] e = ⊥
AllowedFor s (obs ∷ more) e = Allowed s obs e ⊎ AllowedFor s more e

abbrev pub Justified : Call → List AgentObs → Effect → Type 0
Justified k observations e =
    ((e ≡ paged deadman "") × (k.alert ≡ true)) ⊎ AllowedFor (scan_of k) observations e

first-For :
    (s : Scan) (obs : AgentObs) (more : List AgentObs) (es : List Effect)
    → All (Allowed s obs) es
    → All (AllowedFor s (obs ∷ more)) es
first-For s obs more [] h = tt
first-For s obs more (e ∷ es) h = (inl h.0, first-For s obs more es h.1)

later-For :
    (s : Scan) (obs : AgentObs) (more : List AgentObs) (es : List Effect)
    → All (AllowedFor s more) es
    → All (AllowedFor s (obs ∷ more)) es
later-For s obs more [] h = tt
later-For s obs more (e ∷ es) h = (inr h.0, later-For s obs more es h.1)

handle_agent-Allowed :
    (c : Settings) (s : Scan) (obs : AgentObs) (st : State)
    → All (Allowed s obs) (handle_agent c s obs st).1
unfolding handle_agent
handle_agent-Allowed c s obs st =
    handle-Allowed c s obs (get obs.agent st.agents) (or_empty (get obs.agent st.wedge_history))

handle_each-For :
    (c : Settings) (s : Scan) (observations : List AgentObs) (st : State)
    → All (AllowedFor s observations) (handle_each c s observations st).1
unfolding handle_each
handle_each-For c s [] st = tt
handle_each-For c s (obs ∷ more) st =
    let r = handle_agent c s obs st in
    append-All (AllowedFor s (obs ∷ more)) r.1 (handle_each c s more r.0).1
      (first-For s obs more r.1 (handle_agent-Allowed c s obs st))
      (later-For s obs more (handle_each c s more r.0).1 (handle_each-For c s more r.0))

each-Justified :
    (k : Call) (observations : List AgentObs) (es : List Effect)
    → All (AllowedFor (scan_of k) observations) es
    → All (Justified k observations) es
each-Justified k observations [] h = tt
each-Justified k observations (e ∷ es) h = (inr h.0, each-Justified k observations es h.1)

deadman-Justified :
    (c : Settings) (k : Call) (st : State) (observations : List AgentObs)
    → All (Justified k observations) (deadman_page c k st)
unfolding deadman_page
deadman-Justified c k st observations =
    elim (Bool-cases (
      ltb 0 (last_known k.heartbeat st.last_beat)
      && ltb (last_known k.heartbeat st.last_beat + c.deadman_gap_sec) k.now)) [
        | inr b ↦ rw b tt
        | inl b ↦
            rw b
              (elim (Bool-cases k.alert) [ inl a ↦ rw a (inl (refl, refl), tt) | inr a ↦ rw a tt ])
      ]

-- Whatever the observations and the state of the file: a run pages only if it is to alert, for an
-- agent that it observes or for its own outage. It nudges only an agent that it observes, armed and with
-- the pen, over a composer that shows neither a draft nor a menu. It resets only the session of a lane,
-- never a singleton, armed to escalate and with the pen, over such a composer and a clean worktree.
pub run-Justified :
    (c : Settings) (k : Call) (observations : List AgentObs) (st : State)
    → All (Justified k observations) (run c k observations st).1
unfolding run
run-Justified c k observations st =
    let w = record st { last_beat = k.now } in
    append-All (Justified k observations) (deadman_page c k st)
      (handle_each c (scan_of k) observations w).1 (deadman-Justified c k st observations)
      (each-Justified k observations (handle_each c (scan_of k) observations w).1
        (handle_each-For c (scan_of k) observations w))
