-- ===== src/Outbox/Delivery/Steps.antt =====
-- A pass, one row after the other.
use wingmen_orchestrator.Prelude.{◌≡◌, refl, List, ◌∷◌, ◌⊎◌, inl, inr, arith}
use wingmen_orchestrator.Outbox.Queue.{Row}
use wingmen_orchestrator.Outbox.Telegram.{Outside, World}
use wingmen_orchestrator.Outbox.Delivery.{deliver_one, deliver_each, Delivered, done, aborted}

pub Delivered-cases :
    (d : Delivered) → ((v : World) × (d ≡ done v)) ⊎ ((v : World) × (d ≡ aborted v))
Delivered-cases (done v) = inl (v, refl)
Delivered-cases (aborted v) = inr (v, refl)

pub deliver_each-done :
    (o : Outside) (r : Row) (rs : List Row) (w v : World)
    → deliver_one o r w ≡ done v
    → deliver_each o (r ∷ rs) w ≡ deliver_each o rs v
unfolding deliver_each
deliver_each-done o r rs w v e = ground (arith, e)

pub deliver_each-aborted :
    (o : Outside) (r : Row) (rs : List Row) (w v : World)
    → deliver_one o r w ≡ aborted v
    → deliver_each o (r ∷ rs) w ≡ aborted v
unfolding deliver_each
deliver_each-aborted o r rs w v e = ground (arith, e)
