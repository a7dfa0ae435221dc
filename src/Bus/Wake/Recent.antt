-- ===== src/Bus/Wake/Recent.antt =====
-- The wakes and alerts so far, and how many of them are recent.
use wingmen_orchestrator.Prelude.{
  ℕ, suc, ◌+◌, ◌-◌, ◌≤◌, ◌<◌, ◌≡◌, refl, true, ◌&&◌, List, [], ◌∷◌, ◌++◌, length, is_empty, ltb,
  leb, if◌then◌else◌, inl, inr, arith, Bool-cases,
}
use wingmen_orchestrator.Bus.Wake.{
  WakeFile, Request, allow, WakeResult, woke, capped, within, latest, cap_state, wake_agent,
}

-- What requests have done: the file, and the times of wakes and of alerts, latest first.
pub record History : Type 0 where
  pub file : WakeFile
  pub woken : List ℕ
  pub alerted : List ℕ

abbrev pub note : ℕ → WakeResult → History → History
note now woke h = record h { woken = now ∷ h.woken }
note now (capped n true) h = record h { alerted = now ∷ h.alerted }
note _ _ h = h

unfoldable pub request : Request → History → History
unfolding wake_agent
request r h =
    let (result, file) = wake_agent r h.file in note r.now result (record h { file = file })

unfoldable pub requests : List Request → History → History
unfolding request
requests [] h = h
requests (r ∷ rs) h = requests rs (request r h)

abbrev pub Ordered : ℕ → List Request → Type 0
Ordered t [] = Unit
Ordered t (r ∷ rs) = (t ≤ r.now) × Ordered r.now rs

-- The times from `a` until before `a + k`.
unfoldable pub count_in : ℕ → ℕ → List ℕ → ℕ
count_in a k [] = 0
count_in a k (t ∷ ts) =
    let rest = count_in a k ts in if leb a t && ltb t (a + k) then suc rest else rest

-- How many of the times are less than k before now.
abbrev pub recent : ℕ → ℕ → List ℕ → ℕ
recent k now ts = length (within k now ts)

-- Each time has at most c others less than k before it.
abbrev pub Sparse : ℕ → ℕ → List ℕ → Type 0
Sparse k c [] = Unit
Sparse k c (t ∷ ts) = (recent k t ts ≤ c) × Sparse k c ts

pub count_in-le-recent : (a k t : ℕ) (ts : List ℕ) → t < a + k → count_in a k ts ≤ recent k t ts
unfolding count_in within
count_in-le-recent a k t [] h = omega arith
count_in-le-recent a k t (x ∷ ts) h = ground (arith, count_in-le-recent a k t ts h)

pub count_in-Sparse : (a k c : ℕ) (ts : List ℕ) → Sparse k c ts → count_in a k ts ≤ suc c
unfolding count_in
count_in-Sparse a k c [] s = omega arith
count_in-Sparse a k c (t ∷ ts) s =
    ground (arith, count_in-le-recent a k t ts, count_in-Sparse a k c ts s.1)

pub recent-append : (k n x : ℕ) (ts : List ℕ) → recent k n (ts ++ x ∷ []) ≡ recent k n (x ∷ ts)
unfolding within
recent-append k n x [] = refl
recent-append k n x (t ∷ ts) = ground (arith, recent-append k n x ts)

-- What a wake prunes is never recent again.
pub recent-within :
    (k m n : ℕ) (ts : List ℕ) → k ≤ 300 → m ≤ n → recent k n (within 300 m ts) ≡ recent k n ts
unfolding within
recent-within k m n [] h l = refl
recent-within k m n (t ∷ ts) h l = ground (arith, recent-within k m n ts h l)

pub recent-latest : (n : ℕ) (ts : List ℕ) → 45 ≤ n - latest ts → recent 45 n ts ≡ 0
unfolding within latest
recent-latest n [] h = refl
recent-latest n (t ∷ ts) h = ground (arith, recent-latest n ts)

pub empty_recent :
    (n : ℕ) (ts : List ℕ) → is_empty ts ≡ true → (length ts ≡ 0) × (recent 45 n ts ≡ 0)
unfolding within
empty_recent n [] e = (refl, refl)
empty_recent n (t ∷ ts) e = cc

-- The gate opens on at most four wakes in the window and none in the debounce.
pub allowed :
    (n : ℕ) (f : WakeFile)
    → cap_state n f ≡ allow
    → (recent 300 n f.wakes ≤ 4) × (recent 45 n f.wakes ≡ 0)
unfolding cap_state
allowed n f h =
    let same = recent-within 45 n n f.wakes (omega arith) (omega arith) in
    elim (Bool-cases (is_empty (within 300 n f.wakes))) [
      | inl e ↦ ground (arith, same, empty_recent n (within 300 n f.wakes) e, e, h)
      | inr e ↦ ground (arith, same, recent-latest n (within 300 n f.wakes), e, h)
    ]

pub recent_mono : (k m n : ℕ) (ts : List ℕ) → m ≤ n → recent k n ts ≤ recent k m ts
unfolding within
recent_mono k m n [] l = omega arith
recent_mono k m n (t ∷ ts) l = ground (arith, recent_mono k m n ts l)
