-- ===== src/CaiDaemon/KillSwitch/Streak.antt =====
-- When the kill switch trips by itself.
use wingmen_orchestrator.Prelude.{
  ℕ, zero, suc, ◌+◌, ◌-◌, ◌<◌, ◌≡◌, ◌∙◌, Bool, true, false, ◌&&◌, ◌||◌, inl, inr, some, List, [],
  ◌∷◌, ltb, ap, arith, if◌then◌else◌, Bool-cases,
}
use wingmen_orchestrator.CaiDaemon.World.{
  State, live, pure_escalation, KillSwitch, World, Act, ◌>>◌, pure,
}
use wingmen_orchestrator.CaiDaemon.KillSwitch.{confidence_drop_threshold, observe}

-- The observations of a stretch of messages, one after another.
unfoldable pub observe_all : List ℕ → Act (Unit {0})
observe_all [] = pure tt
observe_all (c ∷ cs) = do observe c; observe_all cs

abbrev pub is_low : ℕ → Bool
is_low c = ltb c confidence_drop_threshold

-- The first n confidences are there and are low.
abbrev pub first_low : ℕ → List ℕ → Bool
first_low zero cs = true
first_low (suc n) [] = false
first_low (suc n) (c ∷ cs) = is_low c && first_low n cs

-- Somewhere three confidences in a row are low.
abbrev pub three_low : List ℕ → Bool
three_low [] = false
three_low (c ∷ cs) = first_low 3 (c ∷ cs) || three_low cs

-- What an observation does to a live switch.
record Observed (c : ℕ) (w w' : World) : Type 0 where
  high : is_low c ≡ false → w'.switch ≡ record { state = live; low_conf_streak = 0 }
  counted :
      is_low c ≡ true
      → w.switch.low_conf_streak < 2
      → w'.switch ≡ record { state = live; low_conf_streak = w.switch.low_conf_streak + 1 }
  tripped : is_low c ≡ true → 1 < w.switch.low_conf_streak → w'.switch.state ≡ pure_escalation

observe_live : (c : ℕ) (w : World) → w.switch.state ≡ live → Observed c w (observe c w).1
unfolding observe
observe_live c w l = record { high = ground arith; counted = ground arith; tripped = ground arith }

observe_returns : (c : ℕ) (w : World) → (observe c w).0 ≡ some tt
unfolding observe
observe_returns c w = ground arith

observe_tripped :
    (c : ℕ) (w : World) → w.switch.state ≡ pure_escalation → (observe c w).1.switch ≡ w.switch
unfolding observe
observe_tripped c w t = ground arith

observe_all-cons :
    (c : ℕ) (cs : List ℕ) (w : World)
    → (observe_all (c ∷ cs) w).1 ≡ (observe_all cs (observe c w).1).1
unfolding observe_all
observe_all-cons c cs w = ground (arith, observe_returns c w)

observe_all_tripped :
    (cs : List ℕ) (w : World)
    → w.switch.state ≡ pure_escalation
    → (observe_all cs w).1.switch.state ≡ pure_escalation
observe_all_tripped [] w t = unfold observe_all in t
observe_all_tripped (c ∷ cs) w t =
    rw (observe_all-cons c cs w)
      (observe_all_tripped cs (observe c w).1 (rw (observe_tripped c w t) t))

-- With a streak of k lows behind it, the switch trips if 3 - k more follow at once, or if three
-- follow in a row later.
trips : ℕ → List ℕ → Bool
trips k cs = first_low (3 - k) cs || three_low cs

abbrev state_if : Bool → State
state_if b = if b then pure_escalation else live

fewer_low : (cs : List ℕ) → first_low 2 cs ≡ true → first_low 1 cs ≡ true
fewer_low [] h = cc
fewer_low (c ∷ cs) h = ground arith

first_is_three : (cs : List ℕ) → first_low 3 cs ≡ true → three_low cs ≡ true
first_is_three [] h = cc
first_is_three (c ∷ cs) h = rw h

observe_all_from :
    (k : ℕ) (cs : List ℕ) (w : World)
    → k < 3
    → w.switch ≡ record { state = live; low_conf_streak = k }
    → (observe_all cs w).1.switch.state ≡ state_if (trips k cs)
unfolding trips
observe_all_from zero [] w h e = unfold observe_all in ground arith
observe_all_from (suc zero) [] w h e = unfold observe_all in ground arith
observe_all_from (suc (suc zero)) [] w h e = unfold observe_all in ground arith
observe_all_from (suc (suc (suc k))) [] w h e = absurd (omega arith)
observe_all_from (suc (suc (suc k))) (c ∷ cs) w h e = absurd (omega arith)
observe_all_from zero (c ∷ cs) w h e =
    let o = observe_live c w (ap (λ (k : KillSwitch). k.state) e) in
    rw (observe_all-cons c cs w) (elim (Bool-cases (is_low c)) [
      | inl low ↦
          let ih =
            observe_all_from 1 cs (observe c w).1 (omega arith)
              (o.counted low (omega (arith, ap (λ (k : KillSwitch). k.low_conf_streak) e)) ∙ cc) in
          ground (arith, ih, fewer_low cs)
      | inr high ↦
          let ih = observe_all_from 0 cs (observe c w).1 (omega arith) (o.high high) in
          ground (arith, ih, first_is_three cs)
    ])
observe_all_from (suc zero) (c ∷ cs) w h e =
    let o = observe_live c w (ap (λ (k : KillSwitch). k.state) e) in
    rw (observe_all-cons c cs w) (elim (Bool-cases (is_low c)) [
      | inl low ↦
          let ih =
            observe_all_from 2 cs (observe c w).1 (omega arith)
              (o.counted low (omega (arith, ap (λ (k : KillSwitch). k.low_conf_streak) e)) ∙ cc) in
          ground (arith, ih, fewer_low cs)
      | inr high ↦
          let ih = observe_all_from 0 cs (observe c w).1 (omega arith) (o.high high) in
          ground (arith, ih, first_is_three cs)
    ])
observe_all_from (suc (suc zero)) (c ∷ cs) w h e =
    let o = observe_live c w (ap (λ (k : KillSwitch). k.state) e) in
    rw (observe_all-cons c cs w) (elim (Bool-cases (is_low c)) [
      | inl low ↦ ground (
        arith,
        observe_all_tripped cs (observe c w).1
            (o.tripped low (omega (arith, ap (λ (k : KillSwitch). k.low_conf_streak) e))),
      )
      | inr high ↦
          let ih = observe_all_from 0 cs (observe c w).1 (omega arith) (o.high high) in
          ground (arith, ih, first_is_three cs)
    ])

-- From a live switch with no streak, whatever of the audit writes fails, a sequence of observations
-- leaves the switch in pure escalation if three confidences in a row are low somewhere in it, and
-- live if not.
pub observe_all_trips :
    (cs : List ℕ) (w : World)
    → w.switch ≡ record { state = live; low_conf_streak = 0 }
    → (observe_all cs w).1.switch.state ≡ (if three_low cs then pure_escalation else live)
unfolding trips
observe_all_trips cs w e =
    ground (arith, observe_all_from 0 cs w (omega arith) e, first_is_three cs)
