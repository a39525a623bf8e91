-- ===== src/LongContext.antt =====
-- scripts/benchmark_long_context.py: the time to the first line of a response for a long context,
-- cold and warm. Times are in milliseconds.
pub mod Laws
pub mod Contexts
use radixgates.Base.{
  ℕ, zero, suc, List, [], ◌∷◌, ◌++◌, Str, lit, Option, none, some, Bool, true, false, ◌&&◌, not,
  is_empty, length, strip, if◌then◌else◌,
}
use radixgates.Base.Int.{ℤ, pos, negsuc, ◌+ℤ◌, ◌-ℤ◌, ◌*ℤ◌, eqb_ℤ, ltb_ℤ}
use radixgates.Python.{Exc, Result, ok, raise, ◌>>=◌, or_raise, except, json_error, type_error}
use radixgates.Python.Json.{
  Json, null, bool, int, float, str, arr, obj, nil, cons, end, field, Codec, get,
}
use radixgates.Stats.{Frac}
use radixgates.Ttft.{Stream, done, broken, line}

-- the body of a request: whether it streams, and how many tokens it asks for
unfoldable pub payload : Bool → ℕ → Str → Str → Json
payload stream max_tokens context_text question = obj (
    field (lit "model") (str (lit "NousResearch/Meta-Llama-3-8B-Instruct")) (
      field (lit "messages")
        (arr (
          cons
            (obj (
              field (lit "role") (str (lit "system"))
                (field (lit "content") (str (lit "Context: " ++ context_text)) end)))
            (cons
              (obj
                (field (lit "role") (str (lit "user")) (field (lit "content") (str question) end)))
              nil)))
        (field (lit "stream") (bool stream) (field (lit "max_tokens") (int (pos max_tokens)) end))))

-- the reading of the clock at the first line that is not blank
unfoldable pub first_chunk_time : Stream → Result (Option ℤ)
unfolding strip
first_chunk_time (done now) = ok none
first_chunk_time (broken e) = raise e
first_chunk_time (line raw now after rest) =
    let more = first_chunk_time rest in if is_empty (strip raw) then more else ok (some now)

-- `(first_chunk_time - t0) * 1000 if first_chunk_time else 0`
abbrev pub elapsed_or_zero : ℤ → Option ℤ → ℤ
elapsed_or_zero t0 none = pos 0
elapsed_or_zero t0 (some t) = if eqb_ℤ t (pos 0) then pos 0 else t -ℤ t0

-- `none` is None, for a request that ended with an exception
unfoldable pub chat_stream_ttft : ℤ → Stream → Result (Option ℤ)
unfolding first_chunk_time
chat_stream_ttft t0 s =
    except (first_chunk_time s >>= λ t. ok (some (elapsed_or_zero t0 t))) (λ _. ok none)

-- The tokens from the cache and all tokens; the reply is the body, or an exception of `urlopen`.
unfoldable pub chat_non_stream_for_tokens : Codec → Result Str → Result (Json × Json)
unfolding get
chat_non_stream_for_tokens c body =
    except
      (do
        b ← body
        resp ← or_raise (c.loads b) json_error
        usage ← get resp (lit "usage") (obj end)
        details ← get usage (lit "prompt_tokens_details") (obj end)
        cached ← get details (lit "cached_tokens") (int (pos 0))
        total ← get usage (lit "prompt_tokens") (int (pos 0))
        ok (cached, total))
      (λ _. ok (int (pos 0), int (pos 0)))

-- What the server does with the requests for one context: the cold one, the warm ones, each with
-- the reading of the clock before it, and the one for the tokens.
pub record Session : Type 0 where
  pub cold : ℤ × Stream
  pub warm : List (ℤ × Stream)
  pub tokens : Result Str

-- `if ttft`: neither None nor 0
abbrev pub kept_time : Option ℤ → List ℤ → List ℤ
kept_time none times = times
kept_time (some t) times = if eqb_ℤ t (pos 0) then times else t ∷ times

unfoldable pub warm_times : List (ℤ × Stream) → Result (List ℤ)
unfolding chat_stream_ttft
warm_times [] = ok []
warm_times ((t0, s) ∷ requests) = do
  ttft ← chat_stream_ttft t0 s
  times ← warm_times requests
  ok (kept_time ttft times)

abbrev pub total : List ℤ → ℤ
total [] = pos 0
total (x ∷ xs) = x +ℤ total xs

-- `sum(warm_ttft_list) / len(warm_ttft_list) if warm_ttft_list else 0`
abbrev pub average : List ℤ → Frac
average [] = record { num = pos 0; den = 1 }
average (x ∷ xs) = record { num = total (x ∷ xs); den = length (x ∷ xs) }

-- The number num / den * 10^exponent, whose denominator is above 0.
pub record Ratio : Type 0 where
  pub num : ℤ
  pub den : ℤ
  pub exponent : ℤ

-- `0`
abbrev pub no_ratio : Ratio
no_ratio = record { num = pos 0; den = pos 1; exponent = pos 0 }

-- `cold_ttft / avg_warm_ttft if avg_warm_ttft > 0 else 0`
abbrev pub speedup : ℤ → Frac → Ratio
speedup cold avg =
    if ltb_ℤ (pos 0) avg.num
    then record { num = avg.den *ℤ cold; den = avg.num; exponent = pos 0 }
    else no_ratio

-- the operand of an arithmetic operation or an order: (m, e) is m * 10^e
abbrev pub operand : Json → Result (ℤ × ℤ)
operand (bool b) = ok (if b then pos 1 else pos 0, pos 0)
operand (int n) = ok (n, pos 0)
operand (float m e) = ok (m, e)
operand null = raise type_error
operand (str s) = raise type_error
operand (arr vs) = raise type_error
operand (obj fs) = raise type_error

-- `cached_tokens / n * 100 if n > 0 else 0`
abbrev pub rate_of : Json → ℤ × ℤ → Result Ratio
rate_of cached (m, e) =
    if ltb_ℤ (pos 0) m
    then (operand cached >>= λ c. ok (record { num = 100 *ℤ c.0; den = m; exponent = c.1 -ℤ e }))
    else ok no_ratio

abbrev pub hit_rate : Json → Json → Result Ratio
hit_rate cached n = operand n >>= rate_of cached

-- an entry of `results_summary`
pub record Entry : Type 0 where
  pub size : Str
  pub token_count : Json
  pub cold_ttft : ℤ
  pub warm_ttft : Frac
  pub faster : Ratio
  pub hits : Ratio

-- the rest of the turn for a context with a cold time
unfoldable pub compare : Codec → Str → Session → ℤ → Result Entry
unfolding warm_times chat_non_stream_for_tokens
compare c size s cold = do
  times ← warm_times s.warm
  (cached, n) ← chat_non_stream_for_tokens c s.tokens
  hits ← hit_rate cached n
  ok (record {
    size = size;
    token_count = n;
    cold_ttft = cold;
    warm_ttft = average times;
    faster = speedup cold (average times);
    hits = hits;
  })

-- the entry of a context with a cold time; one without is skipped
unfoldable pub entry_of : Codec → Str → Session → Option ℤ → Result (Option Entry)
unfolding compare
entry_of c size s none = ok none
entry_of c size s (some cold) = compare c size s cold >>= λ e. ok (some e)

-- one turn of the loop
unfoldable pub measure : Codec → Str → Session → Result (Option Entry)
unfolding chat_stream_ttft entry_of
measure c size s = chat_stream_ttft s.cold.0 s.cold.1 >>= entry_of c size s

-- one more entry, or none
abbrev pub with_entry : Option Entry → List Entry → List Entry
with_entry none entries = entries
with_entry (some e) entries = e ∷ entries

-- the loop over `context_map.items()`: `results_summary`
unfoldable pub run : Codec → List (Str × Session) → Result (List Entry)
unfolding measure
run c [] = ok []
run c ((size, s) ∷ contexts) = do
  e ← measure c size s
  entries ← run c contexts
  ok (with_entry e entries)
