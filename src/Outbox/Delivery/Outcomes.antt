-- ===== src/Outbox/Delivery/Outcomes.antt =====
-- What Telegram has got when a delivery ends.
use mathlib.Core.Path.{subst}
use wingmen_orchestrator.Prelude.{
  ℕ, zero, suc, ◌≡◌, ◌∙◌, refl, sym, ap, true, false, Option, none, some, String, List, [], ◌∷◌,
  ◌++◌, ◌⊎◌, inl, inr, map, take, arith, Bool-cases, Option-cases,
}
use wingmen_orchestrator.Prelude.Texts.{Text}
use wingmen_orchestrator.Outbox.Queue.{ℤ, Error, send_failed, unreadable_file, Row}
use wingmen_orchestrator.Outbox.Telegram.{
  Message, Post, send_message, send_document, Outside, World, Result, ok, raised, Resolved, resolve,
  Calls, send_parts, parts_of, send_text, send_file,
}
use wingmen_orchestrator.Outbox.Delivery.{
  is_ack, is_stale_ack, target, Ending, stale, through, broken, ended, then_file, send_all,
  to_target, attempt,
}

-- The requests of a row, in their order.
abbrev pub planned_parts : Outside → Option Text → List Text
planned_parts o none = []
planned_parts o (some []) = []
planned_parts o (some (c ∷ s)) = parts_of o (c ∷ s)

abbrev pub planned_file : Text → ℤ → Option Text → List Post
planned_file token chat none = []
planned_file token chat (some []) = []
planned_file token chat (some (c ∷ s)) = send_document token chat (c ∷ s) ∷ []

unfoldable pub planned : Outside → Text → ℤ → Row → List Post
planned o token chat r =
    map (send_message token chat) (planned_parts o r.text) ++ planned_file token chat r.file_path

-- All of a plan was sent, or there was a failure behind a part of it.
abbrev Ran : List Post → List Post → Calls → Type 0
Ran plan before k =
    ((k.failure ≡ none) × (k.posts ≡ before ++ plan))
    ⊎ ((e : Error) × (n : ℕ) × (k.failure ≡ some e) × (k.posts ≡ before ++ take n plan))

append-nil : (l : List Post) → l ++ [] ≡ l
append-nil [] = refl
append-nil (p ∷ l) = ap (λ k. p ∷ k) (append-nil l)

append-append : (a b c : List Post) → (a ++ b) ++ c ≡ a ++ (b ++ c)
append-append [] b c = refl
append-append (p ∷ a) b c = ap (λ k. p ∷ k) (append-append a b c)

module _ (o : Outside) (token : Text) (chat : ℤ) where
  send_parts-accepted :
      (p : Text) (ps : List Text) (before : List Post)
      → o.accepts before (send_message token chat p) ≡ true
      → send_parts o token chat (p ∷ ps) before
        ≡ send_parts o token chat ps (before ++ (send_message token chat p ∷ []))
  unfolding send_parts
  send_parts-accepted p ps before e = ground (arith, e)

  send_parts-refused :
      (p : Text) (ps : List Text) (before : List Post)
      → o.accepts before (send_message token chat p) ≡ false
      → send_parts o token chat (p ∷ ps) before
        ≡ record { posts = before ++ (send_message token chat p ∷ []); failure = some send_failed }
  unfolding send_parts
  send_parts-refused p ps before e = ground (arith, e)

  send_parts-Ran :
      (ps : List Text) (before : List Post)
      → Ran (map (send_message token chat) ps) before (send_parts o token chat ps before)
  send_parts-Ran [] before = unfold send_parts in inl (refl, sym (append-nil before))
  send_parts-Ran (p ∷ ps) before =
      let new = send_message token chat p in
      let rest = map (send_message token chat) ps in
      elim (Bool-cases (o.accepts before new)) [
        | inl e ↦ subst (Ran (new ∷ rest) before) (sym (send_parts-accepted p ps before e)) (
            further new rest before (send_parts o token chat ps (before ++ (new ∷ [])))
              (send_parts-Ran ps (before ++ (new ∷ []))))
        | inr e ↦
            subst (Ran (new ∷ rest) before) (sym (send_parts-refused p ps before e))
              (inr (send_failed, 1, refl, refl))
      ]
    where
      further :
          (new : Post) (rest before : List Post) (k : Calls)
          → Ran rest (before ++ (new ∷ [])) k
          → Ran (new ∷ rest) before k
      further new rest before k (inl (f, q)) = inl (f, q ∙ append-append before (new ∷ []) rest)
      further new rest before k (inr (e, n, f, q)) =
          inr (e, suc n, f, q ∙ append-append before (new ∷ []) (take n rest))

  send_text-Ran :
      (text : Option Text) (before : List Post)
      → Ran
          (map (send_message token chat) (planned_parts o text))
          before
          (send_text o token chat text before)
  unfolding send_text
  send_text-Ran none before = inl (refl, sym (append-nil before))
  send_text-Ran (some []) before = inl (refl, sym (append-nil before))
  send_text-Ran (some (c ∷ s)) before = send_parts-Ran (parts_of o (c ∷ s)) before

  send_file-Ran :
      (path : Option Text) (before : List Post)
      → Ran (planned_file token chat path) before (send_file o token chat path before)
  unfolding send_file
  send_file-Ran none before = inl (refl, sym (append-nil before))
  send_file-Ran (some []) before = inl (refl, sym (append-nil before))
  send_file-Ran (some (c ∷ s)) before =
      let new = send_document token chat (c ∷ s) in
      elim (Bool-cases (o.is_readable (c ∷ s))) [
        | inl e ↦ elim (Bool-cases (o.accepts before new)) [
          | inl f ↦ rw (e, f) (inl (refl, refl))
          | inr f ↦ rw (e, f) (inr (send_failed, 1, refl, refl))
        ]
        | inr e ↦ rw e (inr (unreadable_file, 0, refl, sym (append-nil before)))
      ]

first_part : (n : ℕ) (a b : List Post) → (m : ℕ) × (take n a ≡ take m (a ++ b))
first_part zero a b = (0, refl)
first_part (suc n) [] b = (0, refl)
first_part (suc n) (p ∷ a) b = let h = first_part n a b in (suc h.0, ap (λ k. p ∷ k) h.1)

second_part : (n : ℕ) (a b : List Post) → (m : ℕ) × (a ++ take n b ≡ take m (a ++ b))
second_part n [] b = (n, refl)
second_part n (p ∷ a) b = let h = second_part n a b in (suc h.0, ap (λ k. p ∷ k) h.1)

module _ (o : Outside) (token : Text) (chat : ℤ) where
  then_file-Ran :
      (path : Option Text) (plan before : List Post) (k : Calls)
      → Ran plan before k
      → Ran (plan ++ planned_file token chat path) before (then_file o token chat path k)
  then_file-Ran path plan before k (inr (e, n, f, q)) =
      let m = first_part n plan (planned_file token chat path) in
      rw f (inr (e, m.0, refl, q ∙ ap (λ l. before ++ l) m.1))
  then_file-Ran path plan before k (inl (f, q)) =
      let file = planned_file token chat path in
      rw f (elim (send_file-Ran o token chat path k.posts) [
        | inl (g, p) ↦ inl (g, p ∙ ap (λ l. l ++ file) q ∙ append-append before plan file)
        | inr (e, n, g, p) ↦
            let m = second_part n plan file in
            inr (
              e,
              m.0,
              g,
              p
                  ∙ ap (λ l. l ++ take n file) q
                  ∙ append-append before plan (take n file)
                  ∙ ap (λ l. before ++ l) m.1,
            )
      ])

  send_all-Ran :
      (r : Row) (before : List Post)
      → Ran (planned o token chat r) before (send_all o token chat r before)
  unfolding send_all planned
  send_all-Ran r before =
      then_file-Ran r.file_path (map (send_message token chat) (planned_parts o r.text)) before
        (send_text o token chat r.text before) (send_text-Ran o token chat r.text before)

-- The chat and the token are the channel's, or there is none.
abbrev pub Reaches : Outside → World → Row → Text → ℤ → Option String → Type 0
Reaches o w r token chat tag =
    (v : Resolved) × (resolve o w.channels r.channel_key ≡ ok v)
    × (target r.chat_id v.chat ≡ some chat)
    × (v.token ≡ token)
    × (v.tag ≡ tag)

abbrev pub Explained : Outside → World → Row → Ending → Type 0
Explained o w r stale = is_ack r.text ≡ true
Explained o w r (through chat tag posts) =
    (token : Text) × Reaches o w r token chat tag × (posts ≡ w.posts ++ planned o token chat r)
Explained o w r (broken e posts) =
    (posts ≡ w.posts)
    ⊎ ((token : Text) × (chat : ℤ) × (tag : Option String) × (n : ℕ) × Reaches o w r token chat tag
        × (posts ≡ w.posts ++ take n (planned o token chat r)))

ended-Explained :
    (o : Outside) (w : World) (r : Row) (v : Resolved) (chat : ℤ) (k : Calls)
    → Reaches o w r v.token chat v.tag
    → Ran (planned o v.token chat r) w.posts k
    → Explained o w r (ended chat v.tag k)
ended-Explained o w r v chat k h (inl (f, q)) = rw f (v.token, h, q)
ended-Explained o w r v chat k h (inr (e, n, f, q)) = rw f (inr (v.token, chat, v.tag, n, h, q))

to_target-Explained :
    (o : Outside) (w : World) (r : Row) (v : Resolved)
    → resolve o w.channels r.channel_key ≡ ok v
    → Explained o w r (to_target o v r w.posts (target r.chat_id v.chat))
to_target-Explained o w r v h = elim (Option-cases (target r.chat_id v.chat)) [
  | inl e ↦ rw e (inl refl)
  | inr (chat, e) ↦ rw e (
      ended-Explained o w r v chat (send_all o v.token chat r w.posts) (v, h, e, refl, refl)
        (send_all-Ran o v.token chat r w.posts))
]

-- A delivery that ends early drops a reassurance of the bot. One that gets through has made all of the
-- row's requests, the redacted text's parts in their order and then the file, to the row's own chat or
-- else the channel's, with the channel's token. One that breaks has made none, or the first few of them.
pub attempt-Explained : (o : Outside) (w : World) (r : Row) → Explained o w r (attempt o w r)
unfolding attempt
attempt-Explained o w r = elim (result_cases (resolve o w.channels r.channel_key)) [
  | inl (e, f) ↦ rw f (inl refl)
  | inr (v, f) ↦ rw f (elim (Bool-cases (is_stale_ack w.messages v.tag r.text)) [
    | inl g ↦ rw g (ack_of w.messages v.tag r.text g)
    | inr g ↦ rw g (to_target-Explained o w r v f)
  ])
]
  where
    result_cases :
        (q : Result Resolved) → ((e : Error) × (q ≡ raised e)) ⊎ ((v : Resolved) × (q ≡ ok v))
    result_cases (raised e) = inl (e, refl)
    result_cases (ok v) = inr (v, refl)

    ack_of :
        (ms : List Message) (tag : Option String) (t : Option Text)
        → is_stale_ack ms tag t ≡ true
        → is_ack t ≡ true
    ack_of ms tag t h = unfold is_stale_ack in ground (arith, h)
