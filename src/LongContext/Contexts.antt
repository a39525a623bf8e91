-- ===== src/LongContext/Contexts.antt =====
-- The contexts of scripts/benchmark_long_context.py, and the requests that it sends for each.
pub mod Fresh
use radixgates.Base.{ℕ, zero, suc, List, [], ◌∷◌, ◌++◌, map, Str, lit, Bool, true, false}
use radixgates.Base.Int.{ℤ}
use radixgates.Python.{Result}
use radixgates.Python.Json.{Json, Codec}
use radixgates.Ttft.{Stream}
use radixgates.LongContext.{payload, Session, Entry, run}

abbrev pub base_text : Str
base_text =
    lit "The RadixAttention mechanism developed by SGLang dramatically optimizes inference "
    ++ lit "in LLMs by utilizing a radix tree to manage the Key-Value (KV) cache. Instead of "
    ++ lit "recalculating the attention scores for identical prefixes across multiple requests, "
    ++ lit "the system intelligently hashes and retrieves previously computed states. This "
    ++ lit "approach is highly effective in Retrieval-Augmented Generation (RAG) paradigms, "
    ++ lit "where the same large document or system prompt is frequently prepended to varying "
    ++ lit "user queries. "

-- `s * n`
abbrev pub repeated : ℕ → Str → Str
repeated zero s = []
repeated (suc n) s = s ++ repeated n s

unfoldable pub context_map : List (Str × Str)
context_map =
    (lit "2K", repeated 40 base_text)
    ∷ (lit "4K", repeated 80 base_text)
    ∷ (lit "8K", repeated 150 base_text)
    ∷ []

abbrev pub question : Str
question = lit "Please summarize the core mechanism."

abbrev pub run_id : Str → Str → Str
run_id label now = lit "Unique_Run_ID: " ++ (label ++ (95 ∷ now))

-- `ctx_unique`, of which `now` is the text of the time; 32 and 10 are " " and "\n"
unfoldable pub ctx_unique : Str → Str → Str → Str
ctx_unique label now ctx = run_id label now ++ (32 ∷ 10 ∷ ctx)

-- What the service does with the i-th streaming request for a context, with the reading of the
-- clock before it, and with the request for the tokens; and the text of the time before them.
pub record Endpoint : Type 0 where
  pub now : Str → Str
  pub streams : Str → ℕ → Json → ℤ × Stream
  pub replies : Str → Json → Result Str

-- the requests for a context
unfoldable pub session_of : Endpoint → Str × Str → Str × Session
unfolding payload ctx_unique
session_of s (label, ctx) =
    let text = ctx_unique label (s.now label) ctx in
    let asked = payload true 10 text question in
    (
      label,
      record {
        cold = s.streams label 0 asked;
        warm = s.streams label 1 asked ∷ s.streams label 2 asked ∷ s.streams label 3 asked ∷ [];
        tokens = s.replies label (payload false 1 text question);
      },
    )

-- the whole script
unfoldable pub benchmark : Codec → Endpoint → Result (List Entry)
unfolding run session_of context_map
benchmark c s = run c (map (session_of s) context_map)
