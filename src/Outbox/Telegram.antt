-- ===== src/Outbox/Telegram.antt =====
-- `_resolve`, `_send_text` and `_send_file` of nervous_system/tg_out.py. `secret_redact.redact`, the environment, the files and Telegram are parameters; a call of Telegram
-- may depend on all the calls before it.
use wingmen_orchestrator.Prelude.{
  ℕ, zero, suc, ◌+◌, ◌-◌, ◌*◌, String, Bool, true, false, Option, none, some, List, [], ◌∷◌, ◌++◌,
  any, ◌==◌, nat_eq, string_eq, if◌then◌else◌,
}
use wingmen_orchestrator.Prelude.Texts.{Text, strip, is_digit}
use wingmen_orchestrator.Outbox.Chunks.{chunk_text}
use wingmen_orchestrator.Outbox.Queue.{
  ℤ, pos, negsuc, Error, unknown_channel, empty_token, bad_operator_id, unreadable_file,
  send_failed, Row,
}

-- The columns of `bot_channels` that are read.
pub record Channel : Type 0 where
  pub channel_key : String
  pub token_env_key : Option String
  pub allowed_chat_ids : Option (List ℤ)
  pub channel_tag : Option String

-- The rows of `operator_messages`.
pub data Message : Type 0 where
  inbound : (tag : Option String) (is_handled : Bool) → Message
  outbound : (chat_id : ℤ) (tag : Option String) (text : Text) → Message

-- The requests to Telegram.
pub data Post : Type 0 where
  send_message : (token : Text) (chat_id : ℤ) (text : Text) → Post
  send_document : (token : Text) (chat_id : ℤ) (path : Text) → Post

-- `returned` is the order in which the database returns the rows of an UPDATE. By the id of the row: whether the
-- reads of its delivery succeed, whether the writes after the last request do, and whether those of the
-- handler do.
pub record Outside : Type 0 where
  pub getenv : String → Option Text
  pub redact : Text → Text
  pub is_readable : Text → Bool
  pub accepts : List Post → Post → Bool
  pub returned : List Row → List Row
  pub reads_ok : ℕ → Bool
  pub writes_ok : ℕ → Bool
  pub handler_ok : ℕ → Bool

pub record World : Type 0 where
  pub now : ℕ
  pub channels : List Channel
  pub rows : List Row
  pub messages : List Message
  pub posts : List Post

pub data Result (A : Type 0) : Type 0 where
  ok : A → Result A
  raised : Error → Result A

abbrev pub same_chat : ℤ → ℤ → Bool
same_chat (pos a) (pos b) = a == b
same_chat (negsuc a) (negsuc b) = a == b
same_chat _ _ = false

-- int(s) on a text without underscores
abbrev pub digits : ℕ → Text → Option ℕ
digits n [] = some n
digits n (c ∷ s) = let rest = digits (10 * n + (c - b'0')) s in if is_digit c then rest else none

abbrev pub some_digits : Text → Option ℕ
some_digits [] = none
some_digits (c ∷ s) = digits 0 (c ∷ s)

abbrev pub plus : Option ℕ → Option ℤ
plus none = none
plus (some n) = some (pos n)

abbrev pub minus : Option ℕ → Option ℤ
minus none = none
minus (some zero) = some (pos 0)
minus (some (suc n)) = some (negsuc n)

abbrev pub signed : Text → Option ℤ
signed [] = none
signed (c ∷ s) =
    if c == b'-'
    then minus (some_digits s)
    else if c == b'+'
    then plus (some_digits s)
    else plus (some_digits (c ∷ s))

unfoldable pub int_of : Text → Option ℤ
int_of s = signed (strip s)

-- os.environ.get(key, "")
abbrev pub or_blank : Option Text → Text
or_blank none = []
or_blank (some t) = t

abbrev pub key_or_blank : Option String → String
key_or_blank none = ""
key_or_blank (some k) = k

abbrev pub first_of : List ℤ → Option ℤ
first_of [] = none
first_of (c ∷ cs) = some c

abbrev pub listed : Option (List ℤ) → List ℤ
listed none = []
listed (some cs) = cs

-- What follows `op and`: the operator's chat if it is allowed, else the first.
abbrev pub among : Option ℤ → List ℤ → Result (Option ℤ)
among none allowed = raised bad_operator_id
among (some c) allowed = ok (if any (same_chat c) allowed then some c else first_of allowed)

unfoldable pub default_chat : Text → List ℤ → Result (Option ℤ)
unfolding int_of
default_chat [] allowed = ok (first_of allowed)
default_chat (c ∷ s) allowed = among (int_of (c ∷ s)) allowed

pub record Resolved : Type 0 where
  pub token : Text
  pub chat : Option ℤ
  pub tag : Option String

abbrev pub resolved : Text → Option String → Result (Option ℤ) → Result Resolved
resolved token tag (raised e) = raised e
resolved token tag (ok chat) = ok (record { token = token; chat = chat; tag = tag })

abbrev pub with_token : Outside → Channel → Text → Result Resolved
with_token o c [] = raised empty_token
with_token o c (t ∷ ts) =
    resolved (t ∷ ts) c.channel_tag
      (default_chat (or_blank (o.getenv "MUSA_TELEGRAM_ID")) (listed c.allowed_chat_ids))

unfoldable pub resolve : Outside → List Channel → String → Result Resolved
resolve o [] key = raised unknown_channel
resolve o (c ∷ cs) key =
    let rest = resolve o cs key in
    if c.channel_key == key
    then with_token o c (or_blank (o.getenv (key_or_blank c.token_env_key)))
    else rest

-- What the calls made, and how they ended.
pub record Calls : Type 0 where
  pub posts : List Post
  pub failure : Option Error

abbrev pub call : Outside → List Post → Post → Calls
call o posts p = record {
  posts = posts ++ (p ∷ []);
  failure = if o.accepts posts p then none else some send_failed;
}

unfoldable pub send_parts : Outside → Text → ℤ → List Text → List Post → Calls
send_parts o token chat [] posts = record { posts = posts; failure = none }
send_parts o token chat (p ∷ ps) posts = elim (o.accepts posts (send_message token chat p)) [
  | true ↦ send_parts o token chat ps (posts ++ (send_message token chat p ∷ []))
  | false ↦ call o posts (send_message token chat p)
]

-- No parts where the loop has run out of fuel.
abbrev pub or_no_parts : Option (List Text) → List Text
or_no_parts none = []
or_no_parts (some ps) = ps

unfoldable pub parts_of : Outside → Text → List Text
parts_of o text = or_no_parts (chunk_text 4096 (o.redact text))

-- if text: _send_text(...)
unfoldable pub send_text : Outside → Text → ℤ → Option Text → List Post → Calls
unfolding send_parts parts_of
send_text o token chat none posts = record { posts = posts; failure = none }
send_text o token chat (some []) posts = record { posts = posts; failure = none }
send_text o token chat (some (c ∷ s)) posts = send_parts o token chat (parts_of o (c ∷ s)) posts

-- if file_path: _send_file(...)
unfoldable pub send_file : Outside → Text → ℤ → Option Text → List Post → Calls
send_file o token chat none posts = record { posts = posts; failure = none }
send_file o token chat (some []) posts = record { posts = posts; failure = none }
send_file o token chat (some (c ∷ s)) posts =
    if o.is_readable (c ∷ s)
    then call o posts (send_document token chat (c ∷ s))
    else record { posts = posts; failure = some unreadable_file }
