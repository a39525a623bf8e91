-- ===== src/Tests/Streaming.antt =====
-- A chat that prints a token, and one that the gateway breaks off.
use radixgates.Base.{◌≡◌, refl, [], ◌∷◌, lit}
use radixgates.Python.{key_error}
use radixgates.Python.Json.{str, field, obj, end}
use radixgates.Demos.Streaming.{
  Body, done, line, line_event, response, stream_chat, complete, escaped,
}
use radixgates.Demos.Streaming.Laws.{
  Leads, here, skip, print, stream_chat-Leads, stream_chat-no_choices,
}
use radixgates.Tests.Samples.{codec}

abbrev rest : Body
rest = line (lit "data: {error}") done

abbrev chat : Body → Body
chat b = line [] (line (lit "data: {hi}") b)

leads : (b : Body) → Leads codec (chat b) (str (lit "hi") ∷ []) b
unfolding line_event
leads b = skip [] refl (print (lit "data: {hi}") (str (lit "hi")) refl (here b))

stream_chat-Leads_example :
    stream_chat codec (response 200 [] (chat (line (lit "data: [DONE]") done)))
    ≡ complete (str (lit "hi") ∷ [])
unfolding line_event
stream_chat-Leads_example = stream_chat-Leads codec [] (leads (line (lit "data: [DONE]") done)) refl

stream_chat-no_choices_example :
    stream_chat codec (response 200 [] (chat rest)) ≡ escaped (str (lit "hi") ∷ []) key_error
unfolding line_event
stream_chat-no_choices_example =
    stream_chat-no_choices codec [] (lit "data: {error}") (lit " {error}")
      (field (lit "error") (obj end) end) (leads rest) refl refl refl refl refl
