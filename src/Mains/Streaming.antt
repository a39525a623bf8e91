-- ===== src/Mains/Streaming.antt =====
-- `main` of examples/streaming_demo.py.
use radixgates.Base.{List, [], ◌∷◌, Str, lit, strip, is_empty, if◌then◌else◌}
use radixgates.Python.{Result, ok, raise}
use radixgates.Python.Json.{Json}
use radixgates.Demos.Gateway.{check_direct}
use radixgates.Demos.Streaming.{Response, Chat, http_error, complete, escaped, payload, stream_chat}
use radixgates.Script.{Part, Script, ◌>>=◌, ◌>>◌, say, call}
use radixgates.Script.LogName.{Demo}
use radixgates.Mains.{Host, bar, save, time_of}

-- What `input` returns, and what the gateway answers to a body.
pub record Talk : Type 0 where
  pub typed : Result Str
  pub answer : Json → Response

abbrev header : List Str
header =
    (bar 50) ∷ (lit " RadixGates — real-time SSE streaming check (direct mode)") ∷ (bar 50) ∷ []

-- the prompt that was typed, or the default
abbrev pub question_of : Str → Str
question_of typed =
    if is_empty (strip typed) then lit "Write a short poem about GPU computing." else strip typed

-- An HTTP error is printed, and the script goes on.
abbrev pub chat_end : Chat → Result (Unit {0})
chat_end (http_error status text) = ok tt
chat_end (complete tokens) = ok tt
chat_end (escaped tokens e) = raise e

unfoldable pub main : Host → Talk → Script (Unit {0})
unfolding check_direct payload stream_chat
main h t = do
  say header
  call Part.gateway (check_direct h.codec h.health)
  say ((lit "✅ Gateway: direct mode (SSE; no Kafka or WebSocket)\n") ∷ [])
  typed ← call Part.prompt t.typed
  call Part.chat (chat_end (stream_chat h.codec (t.answer (payload (question_of typed)))))
  call Part.logs (save h (time_of Demo.streaming h))
  say []
