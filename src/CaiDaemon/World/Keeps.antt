-- ===== src/CaiDaemon/World/Keeps.antt =====
-- Invariants of actions: what holds before holds after, whether the action returns or raises.
use wingmen_orchestrator.Prelude.{◌≡◌, refl, Bool, true, false, Option, none, some}
use wingmen_orchestrator.CaiDaemon.World.{World, KillSwitch, Act, ◌>>=◌, pure, branch, get_switch}

pub record Keeps (P : World → Type 0) {A : Type 0} (m : Act A) : Type 0 where
  pub at : (w : World) → P w → P (m w).1

module _ {P : World → Type 0} {A : Type 0} where
  pub Keeps-pure : (a : A) → Keeps P (pure a)
  Keeps-pure a = record { at = λ w h. h }

  pub Keeps-branch :
      (b : Bool) (m n : Act A)
      → (b ≡ true → Keeps P m)
      → (b ≡ false → Keeps P n)
      → Keeps P (branch b m n)
  Keeps-branch true m n km kn = record { at = (km refl).at }
  Keeps-branch false m n km kn = record { at = (kn refl).at }

pub Keeps-get_switch : {P : World → Type 0} → Keeps P get_switch
Keeps-get_switch = record { at = λ w h. h }

module _ {P : World → Type 0} {A B : Type 0} where
  after :
      (r : Option A) (f : A → Act B) (w : World)
      → P w
      → ((a : A) → Keeps P (f a))
      → P (let out : Option B × World = elim r [ none ↦ (none, w) | some a ↦ f a w ] in out).1
  after none f w h kf = h
  after (some a) f w h kf = (kf a).at w h

  pub Keeps-bind :
      (m : Act A) (f : A → Act B) → Keeps P m → ((a : A) → Keeps P (f a)) → Keeps P (m >>= f)
  Keeps-bind m f km kf = record { at = λ w h. after (m w).0 f (m w).1 (km.at w h) kf }

-- What follows a look at the switch may use that it has seen the world's own.
pub Keeps-with_switch :
    {P : World → Type 0} {B : Type 0} (f : KillSwitch → Act B)
    → ((w : World) → P w → P (f w.switch w).1)
    → Keeps P (get_switch >>= f)
Keeps-with_switch f kf = record { at = kf }
