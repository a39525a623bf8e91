-- ===== src/Ttft.antt =====
-- The measurement of the time to the first token over a server-sent event stream: `measure_ttft`
-- and `benchmark_ttft`, which examples/pd_demo.py, examples/tp_demo.py and examples/ep_demo.py
-- each have in the same words. What is printed on the way is left out.
pub mod Laws
pub mod Lines
pub mod Sign
pub mod Bench
use radixgates.Base.{ℕ, zero, suc, ◌≡◌, Bool, true, false, List, [], ◌∷◌, Option, none, some}
use radixgates.Base.{Str, lit, str_eq, starts_with, strip, drop, is_empty, if◌then◌else◌, ◌++◌}
use radixgates.Base.Int.{ℤ, pos, negsuc, ◌-ℤ◌, eqb_ℤ, ltb_ℤ}
use radixgates.Base.Dict.{Dict, insert}
use radixgates.Python.{Exc, Result, ok, raise, ◌>>=◌, or_raise, except, unicode_error, json_error}
use radixgates.Python.Json.{Json, bool, int, str, arr, obj, nil, cons, end, field, Codec}
use radixgates.Python.Json.{truthy, by_key, first_item, get, or_empty, null}
use radixgates.Stats.{Frac, median}

-- The answer to a request, with the readings of the clock: the lines of the body, each with the
-- reading that the loop takes at it and the one taken if the loop stops there. `broken` is an
-- exception of `requests.post` or of reading the next line.
pub data Stream : Type 0 where
  done : ℤ → Stream
  broken : Exc → Stream
  line : Str → ℤ → ℤ → Stream → Stream

-- What one line of the body is to the loop.
pub data Event : Type 0 where
  skipped finished token : Event
  failed : Exc → Event

abbrev pub prefix : Str
prefix = lit "data:"

abbrev pub done_mark : Str
done_mark = lit "[DONE]"

-- `json.loads(data_str)["choices"][0]["delta"].get("content") or ""`
unfoldable pub delta : Codec → Str → Result Json
unfolding by_key first_item get or_empty
delta c text = do
  chunk ← or_raise (c.loads text) json_error
  choices ← by_key chunk (lit "choices")
  choice ← first_item choices
  d ← by_key choice (lit "delta")
  content ← get d (lit "content") null
  ok (or_empty content)

-- the inner `try` with its `except Exception: pass`
abbrev pub chunk_outcome : Result Json → Event
chunk_outcome m = elim (except m (λ _. ok (str []))) [
  | ok d ↦ if truthy d then token else skipped
  | raise e ↦ failed e
]

unfoldable pub chunk_event : Codec → Str → Event
unfolding delta
chunk_event c text = chunk_outcome (delta c text)

unfoldable pub text_event : Codec → Str → Event
unfolding chunk_event strip
text_event c text =
    if starts_with text prefix
    then (let data_str = strip (drop 5 text) in
        if str_eq data_str done_mark then finished else chunk_event c data_str)
    else skipped

unfoldable pub line_event : Codec → Str → Event
unfolding text_event
line_event c raw =
    if is_empty raw
    then skipped
    else elim (c.decode raw) [ none ↦ failed unicode_error | some text ↦ text_event c text ]

-- The loop over `resp.iter_lines()`: `ttft` and the reading of the clock when it is left.
unfoldable pub read_stream : Codec → ℤ → Option ℤ → Stream → Result (Option ℤ × ℤ)
unfolding line_event
read_stream c t_start ttft (done now) = ok (ttft, now)
read_stream c t_start ttft (broken e) = raise e
read_stream c t_start ttft (line raw now after rest) =
    let more = read_stream c t_start ttft rest in
    elim (line_event c raw) [
      | skipped ↦ more
      | finished ↦ ok (ttft, after)
      | failed e ↦ raise e
      | token ↦ elim ttft [ none ↦ ok (some (now -ℤ t_start), after) | some _ ↦ more ]
    ]

-- `-1.0`, in microseconds
abbrev pub failure : ℤ
failure = negsuc 999999

-- `ttft or (time.time() - t_start)`: a time of 0 counts as none
unfoldable pub or_elapsed : Option ℤ → ℤ → ℤ
or_elapsed none elapsed = elapsed
or_elapsed (some t) elapsed = if eqb_ℤ t (pos 0) then elapsed else t

unfoldable pub measure_ttft : Codec → ℤ → Stream → Result ℤ
unfolding read_stream or_elapsed
measure_ttft c t_start s =
    except (read_stream c t_start none s >>= λ (ttft, now). ok (or_elapsed ttft (now -ℤ t_start)))
      (λ _. ok failure)

-- the body of the request
unfoldable pub ttft_payload : Str → Json
ttft_payload prompt = obj (
    field (lit "messages")
      (arr (
        cons (obj (field (lit "role") (str (lit "user")) (field (lit "content") (str prompt) end)))
          nil))
      (field (lit "stream") (bool true) (field (lit "max_tokens") (int (pos 1)) end)))

-- What the gateway does with the n-th request of a run, given its body: the reading of the clock
-- before it is sent, and the answer.
abbrev pub Service : Type 0
Service = ℕ → Json → ℤ × Stream

-- `for _ in range(rounds)`: the times above 0, and the number of the next request
unfoldable pub time_rounds : Codec → Service → Str → ℕ → ℕ → List ℤ → Result (List ℤ × ℕ)
unfolding measure_ttft ttft_payload
time_rounds c serve prompt zero n times = ok (times, n)
time_rounds c serve prompt (suc rounds) n times = do
  let (t_start, s) = serve n (ttft_payload prompt)
  t ← measure_ttft c t_start s
  time_rounds c serve prompt rounds (suc n) (if ltb_ℤ (pos 0) t then times ++ (t ∷ []) else times)

-- `results[name] = statistics.median(times)` if there are times
unfoldable pub record_median : Str → List ℤ → Dict Frac → Dict Frac
unfolding median
record_median name times results = elim (median times) [
  | none ↦ results
  | some m ↦ insert name m results
]

-- the loop over `PROMPTS.items()`, with five rounds for each prompt
unfoldable pub bench_prompts :
    Codec → Service → List (Str × Str) → ℕ → Dict Frac → Result (Dict Frac)
unfolding time_rounds record_median
bench_prompts c serve [] n results = ok results
bench_prompts c serve ((name, prompt) ∷ prompts) n results = do
  (times, n') ← time_rounds c serve prompt 5 n []
  bench_prompts c serve prompts n' (record_median name times results)

unfoldable pub benchmark_ttft : Codec → Service → List (Str × Str) → Result (Dict Frac)
unfolding bench_prompts
benchmark_ttft c serve prompts = bench_prompts c serve prompts 0 []
