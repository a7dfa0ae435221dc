-- ===== src/Council/World/Keeps.antt =====
-- What actions keep, whether or not they raise.
use wingmen_orchestrator.Prelude.{suc, inl, inr, Bool-cases}
use wingmen_orchestrator.Council.World.{
  World, M, Outcome, returned, raised, then_do, or_else, call_db,
}

abbrev pub Keeps : {A : Type 0} → (World → Type 0) → M A → Type 0
Keeps P m = (w : World) → P w → P (m w).1

module _ (P : World → Type 0) where
  then_do-Keeps :
      {A B : Type 0} (f : A → M B) (r : Outcome A × World)
      → ((a : A) → Keeps P (f a))
      → P r.1
      → P (then_do f r).1
  then_do-Keeps f (returned a, w) k p = k a w p
  then_do-Keeps f (raised, w) k p = p

  pub bind-Keeps :
      {A B : Type 0} (m : M A) (f : A → M B)
      → Keeps P m
      → ((a : A) → Keeps P (f a))
      → Keeps P (λ w. then_do f (m w))
  bind-Keeps m f h k w p = then_do-Keeps f (m w) k (h w p)

  pub or_else-Keeps :
      (k : M (Unit {0})) (r : Outcome (Unit {0}) × World) → Keeps P k → P r.1 → P (or_else k r).1
  or_else-Keeps k (returned a, w) h p = p
  or_else-Keeps k (raised, w) h p = h w p

  pub call_db-Keeps :
      (act : World → World)
      → ((w : World) → P w → P (record w { calls = suc w.calls }))
      → ((w : World) → P w → P (act w))
      → Keeps P (call_db act)
  unfolding call_db
  call_db-Keeps act counted acted w p = elim (Bool-cases (w.outside.db_ok w.calls)) [
    | inl e ↦ rw e (acted (record w { calls = suc w.calls }) (counted w p))
    | inr e ↦ rw e (counted w p)
  ]
