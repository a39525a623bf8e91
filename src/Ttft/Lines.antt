-- ===== src/Ttft/Lines.antt =====
-- What a single line of the body is to the loop, and which measurements `t > 0` keeps.
use radixgates.Base.{◌≡◌, refl, false, none, some}
use radixgates.Base.{Str, lit, str_eq, starts_with, strip, drop, is_empty, if◌then◌else◌, ◌++◌}
use radixgates.Base.{arith, Bool-cases, ◌∙◌, Option-cases, inl, inr}
use radixgates.Python.{Exc, Result, ok, raise, or_raise, unicode_error, json_error}
use radixgates.Python.Json.{Json, arr, obj, nil, cons, end, field, Codec}
use radixgates.Python.Json.{truthy, by_key, first_item, get, or_empty, null, find_field, Fields}
use radixgates.Python.Catch.{
  Catchable, >>=-Catchable, or_raise-Catchable, by_key-Catchable, get-Catchable,
  first_item-Catchable,
}
use radixgates.Ttft.{skipped, token, failed}
use radixgates.Ttft.{delta, chunk_event, line_event}
use radixgates.Ttft.{prefix, done_mark, chunk_outcome, text_event}

delta-Catchable : (c : Codec) (text : Str) → Catchable (delta c text)
unfolding delta
delta-Catchable c text =
    >>=-Catchable (or_raise (c.loads text) json_error) _ (or_raise-Catchable _ json_error refl)
      λ chunk.
        >>=-Catchable (by_key chunk (lit "choices")) _ (by_key-Catchable chunk (lit "choices"))
          λ choices. >>=-Catchable (first_item choices) _ (first_item-Catchable choices) λ choice.
            >>=-Catchable (by_key choice (lit "delta")) _ (by_key-Catchable choice (lit "delta"))
              λ d.
                >>=-Catchable (get d (lit "content") null) _ (get-Catchable d (lit "content") null)
                  λ content. tt

chunk_event-ne-failed : (c : Codec) (text : Str) (e : Exc) → chunk_event c text ≡ failed e → ⊥
unfolding chunk_event
chunk_event-ne-failed c text e h = go (delta c text) (delta-Catchable c text) h
  where
    go : (m : Result Json) → Catchable m → chunk_outcome m ≡ failed e → ⊥
    go (ok d) k h = ground arith
    go (raise x) k h = ground arith

text_event-ne-failed : (c : Codec) (text : Str) (e : Exc) → text_event c text ≡ failed e → ⊥
unfolding text_event
text_event-ne-failed c text e h =
    let body = strip (drop 5 text) in
    elim (Bool-cases (starts_with text prefix)) [
      | inr other ↦ cc (rw (other, text_event) at h)
      | inl framed ↦ elim (Bool-cases (str_eq body done_mark)) [
        | inl mark ↦ cc (rw (framed, mark, text_event) at h)
        | inr chunk ↦ chunk_event-ne-failed c body e (rw (framed, chunk, text_event) at h)
      ]
    ]

-- Among the lines of the body only one that does not decode ends a measurement with an exception.
-- A line whose JSON is malformed, or has another shape, is skipped.
line_event-failed :
    (c : Codec) (raw : Str) (e : Exc)
    → line_event c raw ≡ failed e
    → (c.decode raw ≡ none) × (e ≡ unicode_error)
unfolding line_event
line_event-failed c raw e h = elim (Option-cases (c.decode raw)) [
  | inl none_decoded ↦ (none_decoded, ground arith)
  | inr (text, some_decoded) ↦ absurd (text_event-ne-failed c text e (ground arith))
]

-- The decoded JSON of a streamed chunk.
abbrev pub chunk : Json → Json
chunk content = obj (
    field (lit "choices")
      (arr (cons (obj (field (lit "delta") (obj (field (lit "content") content end)) end)) nil))
      end)

framed_line :
    (c : Codec) (raw body : Str)
    → is_empty raw ≡ false
    → c.decode raw ≡ some (prefix ++ body)
    → str_eq (strip body) done_mark ≡ false
    → line_event c raw ≡ chunk_event c (strip body)
unfolding line_event text_event
framed_line c raw body filled decoded other = rw (filled, decoded, other)

chunk_event-chunk :
    (c : Codec) (text : Str) (content : Json)
    → c.loads text ≡ some (chunk content)
    → chunk_event c text ≡ (if truthy content then token else skipped)
unfolding chunk_event
chunk_event-chunk c text content loaded = elim (Bool-cases (truthy content)) [
  | inl t ↦ rw (loaded, t, delta, or_empty) (rw t)
  | inr f ↦ rw (loaded, f, delta, or_empty)
]

-- A "data:" line whose text decodes to a chunk is a token exactly if its content is not empty (or
-- null, or another value that Python counts as false); white space around the JSON does not matter.
line_event-chunk :
    (c : Codec) (raw body : Str) (content : Json)
    → is_empty raw ≡ false
    → c.decode raw ≡ some (prefix ++ body)
    → str_eq (strip body) done_mark ≡ false
    → c.loads (strip body) ≡ some (chunk content)
    → line_event c raw ≡ (if truthy content then token else skipped)
line_event-chunk c raw body content filled decoded other loaded =
    framed_line c raw body filled decoded other ∙ chunk_event-chunk c (strip body) content loaded

chunk_event-no_choices :
    (c : Codec) (text : Str) (fs : Fields)
    → c.loads text ≡ some (obj fs)
    → find_field (lit "choices") fs ≡ none
    → chunk_event c text ≡ skipped
unfolding chunk_event
chunk_event-no_choices c text fs loaded missing = rw (loaded, delta) (rw (missing, by_key))

-- An event whose object has no "choices", such as the gateway's `upstream_interrupted` error, is
-- skipped like an empty line.
line_event-no_choices :
    (c : Codec) (raw body : Str) (fs : Fields)
    → is_empty raw ≡ false
    → c.decode raw ≡ some (prefix ++ body)
    → str_eq (strip body) done_mark ≡ false
    → c.loads (strip body) ≡ some (obj fs)
    → find_field (lit "choices") fs ≡ none
    → line_event c raw ≡ skipped
line_event-no_choices c raw body fs filled decoded other loaded missing =
    framed_line c raw body filled decoded other
    ∙ chunk_event-no_choices c (strip body) fs loaded missing
