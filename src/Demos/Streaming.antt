-- ===== src/Demos/Streaming.antt =====
-- examples/streaming_demo.py: a chat whose tokens are printed as they come.
pub mod Laws
use radixgates.Base.{
  ℕ, zero, suc, List, [], ◌∷◌, ◌++◌, Str, lit, str_eq, starts_with, strip, drop, take,
}
use radixgates.Base.{Option, none, some, Bool, true, false, ◌==◌, is_empty, if◌then◌else◌}
use radixgates.Python.{Exc, Result, ok, raise, ◌>>=◌, json_error, unicode_error, interrupt}
use radixgates.Python.Json.{Json, str, bool, obj, arr, nil, cons, end, field, Codec, truthy}
use radixgates.Ttft.{prefix, done_mark, delta}

-- the body of the request
unfoldable pub payload : Str → Json
payload question = obj (
    field (lit "model") (str (lit "NousResearch/Meta-Llama-3-8B-Instruct")) (
      field (lit "messages")
        (arr (
          cons
            (obj (field (lit "role") (str (lit "user")) (field (lit "content") (str question) end)))
            nil))
        (field (lit "stream") (bool true) end)))

-- The body of a response: its lines, and at the end nothing more or an exception of reading on.
pub data Body : Type 0 where
  done : Body
  broken : Exc → Body
  line : Str → Body → Body

-- `lost` is an exception of `requests.post`
pub data Response : Type 0 where
  lost : Exc → Response
  response : ℕ → Str → Body → Response

-- What one line is to the loop. A token is the value that is printed.
pub data Event : Type 0 where
  skipped finished : Event
  printed : Json → Event
  failed : Exc → Event

-- the inner `try`, which catches `json.JSONDecodeError` alone
abbrev pub chunk_outcome : Result Json → Event
chunk_outcome (ok d) = if truthy d then printed d else skipped
chunk_outcome (raise json_error) = skipped
chunk_outcome (raise e) = failed e

unfoldable pub text_event : Codec → Str → Event
unfolding delta strip
text_event c text =
    if starts_with text prefix
    then (let data_str = strip (drop 5 text) in
        if str_eq data_str done_mark then finished else chunk_outcome (delta c data_str))
    else skipped

unfoldable pub line_event : Codec → Str → Event
unfolding text_event
line_event c raw =
    if is_empty raw
    then skipped
    else elim (c.decode raw) [ none ↦ failed unicode_error | some text ↦ text_event c text ]

-- The tokens printed, and the exception that leaves the loop, if there is one.
unfoldable pub print_tokens : Codec → Body → List Json × Option Exc
unfolding line_event
print_tokens c done = ([], none)
print_tokens c (broken e) = ([], some e)
print_tokens c (line raw rest) =
    let (tokens, e) = print_tokens c rest in
    elim (line_event c raw) [
      | skipped ↦ (tokens, e)
      | finished ↦ ([], none)
      | printed d ↦ (d ∷ tokens, e)
      | failed x ↦ ([], some x)
    ]

-- How `stream_chat` ends: an HTTP error, the summary with the tokens printed, or an exception that
-- leaves it after them. `except KeyboardInterrupt` goes on to the summary.
pub data Chat : Type 0 where
  http_error : ℕ → Str → Chat
  complete : List Json → Chat
  escaped : List Json → Exc → Chat

abbrev pub chat_of : List Json × Option Exc → Chat
chat_of (tokens, none) = complete tokens
chat_of (tokens, some interrupt) = complete tokens
chat_of (tokens, some e) = escaped tokens e

unfoldable pub stream_chat : Codec → Response → Chat
unfolding print_tokens
stream_chat c (lost e) = chat_of ([], some e)
stream_chat c (response status text body) =
    if status == 200 then chat_of (print_tokens c body) else http_error status (take 200 text)
