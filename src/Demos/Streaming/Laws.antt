-- ===== src/Demos/Streaming/Laws.antt =====
-- What the chat prints, and how an event of the gateway about an error ends the script.
use radixgates.Base.{
  ◌≡◌, refl, ap, ◌∙◌, false, List, [], ◌∷◌, ◌++◌, Option, none, some, Str, lit, str_eq, strip,
  is_empty,
}
use radixgates.Python.{Exc, key_error}
use radixgates.Python.Json.{Json, obj, Fields, Codec, find_field, by_key}
use radixgates.Ttft.{prefix, done_mark, delta}
use radixgates.Demos.Streaming.{
  Body, done, line, skipped, finished, printed, failed, line_event, text_event, print_tokens,
  complete, escaped, chat_of, response, stream_chat,
}

-- The loop gets from the first body to the second one, and prints these tokens on the way.
pub data Leads (c : Codec) : Body → List Json → Body → Type 0 where
  here : (b : Body) → Leads c b [] b
  skip :
      (raw : Str) {b b' : Body} {tokens : List Json}
      → line_event c raw ≡ skipped
      → Leads c b tokens b'
      → Leads c (line raw b) tokens b'
  print :
      (raw : Str) (d : Json) {b b' : Body} {tokens : List Json}
      → line_event c raw ≡ printed d
      → Leads c b tokens b'
      → Leads c (line raw b) (d ∷ tokens) b'

abbrev with_tokens : List Json → List Json × Option Exc → List Json × Option Exc
with_tokens tokens (more, e) = (tokens ++ more, e)

print_tokens-Leads :
    (c : Codec) {b b' : Body} {tokens : List Json}
    → Leads c b tokens b'
    → print_tokens c b ≡ with_tokens tokens (print_tokens c b')
unfolding print_tokens
print_tokens-Leads c (here b) = refl
print_tokens-Leads c (skip raw e l) = rw (e, print_tokens) (print_tokens-Leads c l)
print_tokens-Leads c (print raw d {tokens = tokens} e l) =
    rw (e, print_tokens) (ap (with_tokens (d ∷ [])) (print_tokens-Leads c l))

-- Whether the loop is left here without an exception.
abbrev pub IsEnd : Codec → Body → Type 0
IsEnd c done = Unit
IsEnd c (line raw rest) = line_event c raw ≡ finished
IsEnd c b = ⊥

print_tokens-IsEnd : (c : Codec) (b : Body) → IsEnd c b → print_tokens c b ≡ ([], none)
unfolding print_tokens
print_tokens-IsEnd c done h = refl
print_tokens-IsEnd c (line raw rest) h = rw (h, print_tokens)
print_tokens-IsEnd c _ h = absurd h

append_none : (tokens : List Json) → tokens ++ [] ≡ tokens
append_none [] = refl
append_none (d ∷ tokens) = ap (λ l. d ∷ l) (append_none tokens)

-- If a response with status 200 runs to its end or to the end mark, the chat prints the tokens that lie
-- before, in their order, and ends with its summary.
pub stream_chat-Leads :
    (c : Codec) (text : Str) {b b' : Body} {tokens : List Json}
    → Leads c b tokens b'
    → IsEnd c b'
    → stream_chat c (response 200 text b) ≡ complete tokens
unfolding stream_chat
stream_chat-Leads c text {b = b} {b' = b'} {tokens = tokens} l h =
    ap chat_of (print_tokens-Leads c l ∙ ap (with_tokens tokens) (print_tokens-IsEnd c b' h))
    ∙ ap complete (append_none tokens)

no_choices_event :
    (c : Codec) (raw body : Str) (fs : Fields)
    → is_empty raw ≡ false
    → c.decode raw ≡ some (prefix ++ body)
    → str_eq (strip body) done_mark ≡ false
    → c.loads (strip body) ≡ some (obj fs)
    → find_field (lit "choices") fs ≡ none
    → line_event c raw ≡ failed key_error
unfolding line_event text_event delta
no_choices_event c raw body fs filled decoded other loaded missing =
    rw (filled, decoded, other, loaded) (rw (missing, by_key))

-- An event whose object has no "choices", such as the one that the gateway sends for an interrupted
-- upstream, ends the script with a KeyError, after the tokens that lie before it.
pub stream_chat-no_choices :
    (c : Codec) (text raw body : Str) (fs : Fields) {b rest : Body} {tokens : List Json}
    → Leads c b tokens (line raw rest)
    → is_empty raw ≡ false
    → c.decode raw ≡ some (prefix ++ body)
    → str_eq (strip body) done_mark ≡ false
    → c.loads (strip body) ≡ some (obj fs)
    → find_field (lit "choices") fs ≡ none
    → stream_chat c (response 200 text b) ≡ escaped tokens key_error
unfolding stream_chat print_tokens
stream_chat-no_choices c text raw body fs {rest = rest} {tokens = tokens} l filled decoded other
      loaded missing =
    let event = no_choices_event c raw body fs filled decoded other loaded missing in
    let left : print_tokens c (line raw rest) ≡ ([], some key_error) = rw (event, print_tokens) in
    ap chat_of (print_tokens-Leads c l ∙ ap (with_tokens tokens) left)
    ∙ ap (λ t. escaped t key_error) (append_none tokens)
