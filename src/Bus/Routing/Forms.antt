-- ===== src/Bus/Routing/Forms.antt =====
-- The filter and the formatter agree.
use wingmen_orchestrator.Prelude.{◌≡◌, Bool, true, false, not, Option, none, some, arith}
use wingmen_orchestrator.Bus.Wake.{is_p3}
use wingmen_orchestrator.Bus.Routing.{Message, is_routable, format_telegram_body, format_telegram}

abbrev pub is_some {ℓ} : {A : Type ℓ} → Option A → Bool
is_some none = false
is_some (some x) = true

routable_body : (m : Message) → is_routable m ≡ true → is_some (format_telegram_body m) ≡ true
unfolding is_routable format_telegram_body
routable_body m h = ground (arith, h)

-- A message that the filter lets through has a text for Telegram exactly when it is not P3.
pub format_telegram-routable :
    (m : Message) → is_routable m ≡ true → is_some (format_telegram m) ≡ not (is_p3 m.priority)
unfolding format_telegram
format_telegram-routable m h = ground (arith, routable_body m h)
