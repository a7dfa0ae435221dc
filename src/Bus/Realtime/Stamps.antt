-- ===== src/Bus/Realtime/Stamps.antt =====
-- What the notifier stamps, logs and sends.
use wingmen_orchestrator.Prelude.{
  ℕ, suc, ◌≤◌, ◌≡◌, ◌⊎◌, inl, inr, Bool, true, false, not, ◌&&◌, List, [], ◌∷◌, All, ◌==◌, nat_eq,
  arith, Bool-cases, Option-cases, if◌then◌else◌,
}
use wingmen_orchestrator.Bus.Wake.{is_p3}
use wingmen_orchestrator.Bus.Routing.{Message, has_subject, is_routable, format_telegram}
use wingmen_orchestrator.Bus.Routing.Forms.{format_telegram-routable}
use wingmen_orchestrator.Bus.Poll.{Bus, Net, is_in, deliver}
use wingmen_orchestrator.Bus.Realtime.{Notifier}
use wingmen_orchestrator.Bus.Realtime.Runs.{Event, net_of, run, run-keeps}

-- For Telegram: routable, not P3 and no test.
abbrev pub is_shown : Message → Bool
is_shown m = is_routable m && not (is_p3 m.priority) && not m.is_test

-- Put aside: routable and P3, with no answer asked for.
abbrev pub is_hidden : Message → Bool
is_hidden m = is_routable m && is_p3 m.priority && not m.requires_response

abbrev pub Only : Bool → Bool → Type 0
Only happened allowed = (happened ≡ false) ⊎ (allowed ≡ true)

-- Each mark on the message is one that its kind allows.
pub record IsHonest (m : Message) (b : Bus) : Type 0 where
  pub forwarded : Only (is_in m.id b.forwarded) (is_shown m)
  pub sent : Only (is_in m.id b.sent) (is_shown m)
  pub logged : Only (is_in m.id b.log) (is_shown m)
  pub skipped : Only (is_in m.id b.skipped) (is_hidden m)

other-IsHonest :
    (m n : Message) (has_bot : Bool) (net : Net) (b : Bus)
    → (n.id == m.id) ≡ false
    → IsHonest m b
    → IsHonest m (deliver has_bot net n b)
unfolding deliver
other-IsHonest m n has_bot net b d h = elim (Option-cases (format_telegram n)) [
  | inl e ↦ rw e (ground (arith, d, h))
  | inr (text, e) ↦ rw e (ground (arith, d, h))
]

self-IsHonest :
    (m : Message) (has_bot : Bool) (net : Net) (b : Bus)
    → is_routable m ≡ true
    → m.is_test ≡ false
    → IsHonest m b
    → IsHonest m (deliver has_bot net m b)
unfolding deliver
self-IsHonest m has_bot net b r t h = elim (Option-cases (format_telegram m)) [
  | inl e ↦ rw e (ground (arith, e, r, t, h, format_telegram-routable m r))
  | inr (text, e) ↦ rw e (ground (arith, e, r, t, h, format_telegram-routable m r))
]

-- The message is the only one of its id.
abbrev pub Sole : Message → Message → Type 0
Sole m n = ((n.id == m.id) ≡ false) ⊎ (n ≡ m)

deliver-IsHonest :
    (m : Message) (has_bot : Bool) (net : Net) (n : Message) (b : Bus)
    → Sole m n
    → is_routable n ≡ true
    → n.is_test ≡ false
    → IsHonest m b
    → IsHonest m (deliver has_bot net n b)
deliver-IsHonest m has_bot net n b (inl d) r t h = other-IsHonest m n has_bot net b d h
deliver-IsHonest m has_bot net n b (inr same) r t h =
    rw same (self-IsHonest m has_bot net b (rw same at r) (rw same at t) h)

-- A message keeps honest marks over any polls and insertions, in any order and whatever fails: it is sent,
-- logged or stamped as forwarded only if it is routable, not P3 and no test, and stamped as skipped only if
-- it is routable, P3 and asks for no answer. No other message has its id.
pub run-IsHonest :
    (m : Message) (ms : List Message) (es : List Event) (s : Notifier)
    → All (Sole m) ms
    → IsHonest m s.bus
    → IsHonest m (run ms es s).bus
run-IsHonest m ms es s sole h =
    run-keeps (IsHonest m) (λ net. Unit {0}) (Sole m)
      (λ has_bot net n b q. deliver-IsHonest m has_bot net n b) ms es s sole (trivial es) h
  where
    trivial : (es : List Event) → All (λ e. Unit {0}) es
    trivial [] = tt
    trivial (e ∷ es) = (tt, trivial es)

abbrev pub count : ℕ → List ℕ → ℕ
count i [] = 0
count i (k ∷ ks) = let rest = count i ks in if k == i then suc rest else rest

-- For the message each look-up of its key and each row of the log succeed.
abbrev pub IsLogged : ℕ → Net → Type 0
IsLogged i net = (net.lookup_ok i ≡ true) × (net.log_ok i ≡ true)

abbrev Once : ℕ → Bus → Type 0
Once i b = (count i b.sent ≡ 0) ⊎ ((count i b.sent ≡ 1) × (is_in i b.log ≡ true))

-- The message, if it is this one, has a subject.
abbrev pub IsNamed : ℕ → Message → Type 0
IsNamed i n = ((n.id == i) ≡ false) ⊎ (has_subject n ≡ true)

deliver-Once :
    (i : ℕ) (has_bot : Bool) (net : Net) (n : Message) (b : Bus)
    → IsLogged i net
    → IsNamed i n
    → Once i b
    → Once i (deliver has_bot net n b)
unfolding deliver
deliver-Once i has_bot net n b q m h = elim (Option-cases (format_telegram n)) [
  | inl e ↦ rw e (ground (arith, h))
  | inr (text, e) ↦ elim (Bool-cases (n.id == i)) [
    | inl same ↦
        let eq : n.id ≡ i = ground (arith, same) in rw e (ground (arith, same, eq, q, m, h))
    | inr other ↦ rw e (ground (arith, other, h))
  ]
]

-- Over any polls and insertions, in any order, a message is sent at most once, whether or not sends and
-- stamps succeed, as long as its subject is not NULL and for it each look-up of its key and each row of the log succeed.
pub run_at_most_one :
    (i : ℕ) (ms : List Message) (es : List Event) (s : Notifier)
    → All (IsNamed i) ms
    → All (λ e. IsLogged i (net_of e)) es
    → count i s.bus.sent ≡ 0
    → count i (run ms es s).bus.sent ≤ 1
run_at_most_one i ms es s m q h = ground (
  arith,
  run-keeps (Once i) (IsLogged i) (IsNamed i)
      (λ has_bot net n b q' named r t. deliver-Once i has_bot net n b q' named) ms es s m q (inl h),
)
