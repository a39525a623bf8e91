-- ===== src/Tests/Samples.antt =====
-- A decoder for a few texts, and answers made of them.
use radixgates.Base.{[], Str, lit, str_eq, Option, none, some, if◌then◌else◌}
use radixgates.Python.Json.{Json, str, obj, arr, nil, cons, end, field, Codec}
use radixgates.Ttft.Lines.{chunk}

-- the answer to a request that is not streamed
abbrev pub completion : Json
completion = obj (
    field (lit "choices")
      (arr (
        cons
          (obj (field (lit "message") (obj (field (lit "content") (str (lit " a GPU ")) end)) end))
          nil))
      end)

abbrev pub interrupted_event : Json
interrupted_event = obj (field (lit "error") (obj end) end)

abbrev pub sample_loads : Str → Option Json
sample_loads t =
    if str_eq t (lit "{hi}")
    then some (chunk (str (lit "hi")))
    else if str_eq t (lit "{}")
    then some (chunk (str []))
    else if str_eq t (lit "{full}")
    then some completion
    else if str_eq t (lit "{error}")
    then some interrupted_event
    else if str_eq t (lit "{direct}")
    then some (obj (field (lit "mode") (str (lit "direct")) end))
    else none

-- Text is ASCII, and a line that begins with "!" does not decode.
abbrev pub sample_decode : Str → Option Str
sample_decode t = if str_eq t (lit "!") then none else some t

abbrev pub codec : Codec
codec = record { decode = sample_decode; loads = sample_loads }
