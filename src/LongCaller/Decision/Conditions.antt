-- ===== src/LongCaller/Decision/Conditions.antt =====
-- When a caller is to be killed.
use wingmen_orchestrator.Prelude.{
  ◌≡◌, ◌↔◌, ◌⊎◌, refl, inl, inr, true, false, Option, none, some, Option-cases, arith,
}
use wingmen_orchestrator.Prelude.Texts.{Text, starts_with}
use wingmen_orchestrator.LongCaller.Decision.{
  ContentShape, any_unobservable, all_match, hard_kill, is_substrate_native, is_panic_set, Caller,
  decide_kill, in_prefix, decide_kill_with_pid_verify,
}

-- What a kill rests on, but for the check of the process.
pub record Killable (panic : Option Text) (c : Caller) : Type 0 where
  pub not_native : is_substrate_native c.caller_name ≡ false
  pub no_panic : is_panic_set panic ≡ false
  pub unregistered : c.registered ≡ false
  pub shape : ContentShape
  pub computed : c.content_shape ≡ some shape
  pub observed : any_unobservable shape ≡ false
  pub all_three : all_match shape ≡ true

decide_kill_iff :
    (panic : Option Text) (c : Caller)
    → ((decide_kill panic c).action ≡ hard_kill) ↔ Killable panic c
unfolding decide_kill
decide_kill_iff panic c = elim (Option-cases c.content_shape) [
  | inl absent ↦ (λ h. ground arith, λ k. cc (absent, k.computed))
  | inr (s, given) ↦ (
    λ h. record {
      not_native = ground arith;
      no_panic = ground arith;
      unregistered = ground arith;
      shape = s;
      computed = given;
      observed = ground arith;
      all_three = ground arith;
    },
    λ k.
        ground
          (arith, k.not_native, k.no_panic, k.unregistered, k.computed, k.observed, k.all_three),
  )
]

-- A process that is known runs below the prefix.
abbrev pub PidVerified : Text → Option Text → Caller → Type 0
PidVerified prefix cwd c =
    (c.parent_pid ≡ none) ⊎ ((dir : Text) × (cwd ≡ some dir) × (starts_with dir prefix ≡ true))

in_prefix_iff :
    (prefix : Text) (cwd : Option Text)
    → (in_prefix prefix cwd ≡ true)
      ↔ ((dir : Text) × (cwd ≡ some dir) × (starts_with dir prefix ≡ true))
in_prefix_iff prefix none = (λ h. cc, λ h. cc (h.1))
in_prefix_iff prefix (some dir) = (λ h. (dir, refl, h), λ h. ground (arith, h.1, h.2))

-- A caller is to be killed exactly when it is none of the substrate's own, the panic button is not
-- set, it is not registered, its three signals were computed, are all observable and all match, and,
-- if its process is known, that process runs below the prefix at the time of the kill.
pub hard_kill_iff :
    (panic : Option Text) (prefix : Text) (cwd : Option Text) (c : Caller)
    → ((decide_kill_with_pid_verify panic prefix cwd c).action ≡ hard_kill)
      ↔ (Killable panic c × PidVerified prefix cwd c)
unfolding decide_kill_with_pid_verify
hard_kill_iff panic prefix cwd c = elim (Option-cases c.parent_pid) [
  | inl unknown ↦ (
    λ h. ((decide_kill_iff panic c).0 (ground arith), inl unknown),
    λ k. ground (arith, (decide_kill_iff panic c).1 k.0),
  )
  | inr (pid, known) ↦ (
    λ h. (
      (decide_kill_iff panic c).0 (ground arith),
      inr ((in_prefix_iff prefix cwd).0 (ground arith)),
    ),
    λ k. elim k.1 [
      | inl unknown ↦ cc (known, unknown)
      | inr d ↦ ground (arith, (decide_kill_iff panic c).1 k.0, (in_prefix_iff prefix cwd).1 d)
    ],
  )
]
