-- ===== src/Throughput.antt =====
-- The concurrent load test `benchmark_throughput`, which examples/pd_demo.py, examples/tp_demo.py,
-- examples/ep_demo.py and examples/dp_demo.py share but for the number of requests and their bodies.
-- Each request runs in a thread; the main thread takes the results in the order of completion.
pub mod Laws
pub mod Counts
pub mod Order
use radixgates.Base.{
  ℕ, zero, suc, ◌≡◌, refl, Bool, true, false, List, [], ◌∷◌, Option, none, some, ◌<◌, ◌≤◌,
}
use radixgates.Base.{
  Str, lit, String, str_eq, strip, take, is_empty, if◌then◌else◌, ◌++◌, ◌&&◌, leb, ltb, is_empty,
}
use radixgates.Base.{
  arith, ◌↔◌, Bool-cases, Option-cases, inl, inr, ◌+◌, ◌*◌, ◌-◌, not, ◌∙◌, keep, map, range_from,
  length, All, sym, ap, ap₂, count_if, Perm, ∥∥₁_elim,
}
use radixgates.Base.Int.{ℤ, pos, negsuc, ◌-ℤ◌, leb_ℤ, ℤ-set}
use radixgates.Python.{
  Exc, Result, ok, raise, ◌>>=◌, ◌>>◌, or_raise, except, json_error, http_error, index_error,
  attribute_error, is_exception,
}
use radixgates.Python.Json.{
  Json, str, obj, arr, null, bool, int, float, nil, cons, end, field, Codec, by_key, first_item,
  Items,
}
use radixgates.Stats.{Frac, median, p95}

-- One message of a chat in front of the others.
abbrev pub message : String → String → Items → Items
message role content rest =
    cons (obj (field (lit "role") (str (lit role)) (field (lit "content") (str (lit content)) end)))
      rest

-- the body of a request: its messages, no stream, at most 64 tokens
abbrev pub chat_payload : Items → Json
chat_payload messages = obj (
    field (lit "messages") (arr messages)
      (field (lit "stream") (bool false) (field (lit "max_tokens") (int (pos 64)) end)))

-- What comes back for a request that is not streamed: an exception of `requests.post`, or a status
-- and a body.
pub data Reply : Type 0 where
  lost : Exc → Reply
  reply : ℕ → Str → Reply

-- The clock before and after the request, and what came back.
pub record Exchange : Type 0 where
  pub sent : ℤ
  pub received : ℤ
  pub result : Reply

-- What the gateway does with the i-th request, given its body.
abbrev pub Service : Type 0
Service = ℕ → Json → Exchange

-- `r.raise_for_status()`
abbrev pub is_failure : ℕ → Bool
is_failure status = leb 400 status && ltb status 600

-- `v.strip()`: only a text has it
unfoldable pub strip_text : Json → Result Str
unfolding strip
strip_text (str s) = ok (strip s)
strip_text v = raise attribute_error

-- the body of the `try`: the first 40 characters of the answer
unfoldable pub read_answer : Codec → Reply → Result Str
unfolding by_key first_item strip_text
read_answer c (lost e) = raise e
read_answer c (reply status body) = do
  (if is_failure status then raise http_error else ok (tt {0}))
  d ← or_raise (c.loads body) json_error
  choices ← by_key d (lit "choices")
  choice ← first_item choices
  message ← by_key choice (lit "message")
  content ← by_key message (lit "content")
  text ← strip_text content
  ok (take 40 text)

pub data Answer : Type 0 where
  text : Str → Answer
  error : Exc → Answer

pub record Outcome : Type 0 where
  pub success : Bool
  pub latency : ℤ
  pub answer : Answer

unfoldable pub outcome_of : Exchange → Result Str → Result Outcome
outcome_of x (ok ans) =
    ok (record { success = true; latency = x.received -ℤ x.sent; answer = text ans })
outcome_of x (raise e) =
    if is_exception e
    then ok (record { success = false; latency = x.received -ℤ x.sent; answer = error e })
    else raise e

-- `single(i)`
unfoldable pub single : Codec → Service → (ℕ → Json) → ℕ → Result Outcome
unfolding read_answer outcome_of
single c serve payload i = let x = serve i (payload i) in outcome_of x (read_answer c x.result)

pub record Tally : Type 0 where
  pub success : ℕ
  pub fail : ℕ
  pub latencies : List ℤ

abbrev pub no_results : Tally
no_results = record { success = 0; fail = 0; latencies = [] }

unfoldable pub add_outcome : Tally → Outcome → Tally
add_outcome t o =
    if o.success
    then record t { success = suc t.success; latencies = t.latencies ++ (o.latency ∷ []) }
    else record t { fail = suc t.fail }

-- the loop over `as_completed(futs)`, for requests that complete in the order given
unfoldable pub collect : Codec → Service → (ℕ → Json) → List ℕ → Tally → Result Tally
unfolding single add_outcome
collect c serve payload [] t = ok t
collect c serve payload (i ∷ order) t = do
  o ← single c serve payload i
  collect c serve payload order (add_outcome t o)

-- What the summary prints; there are no percentiles if no request succeeded.
pub data Latency : Type 0 where
  unmeasured : Latency
  measured : Frac → ℤ → Latency

pub record Report : Type 0 where
  pub wall : ℤ
  pub success : ℕ
  pub fail : ℕ
  pub latency : Latency

unfoldable pub latency_of : List ℤ → Result Latency
unfolding median p95
latency_of [] = ok unmeasured
latency_of (x ∷ xs) = do
  m ← or_raise (median (x ∷ xs)) index_error
  v ← or_raise (p95 (x ∷ xs)) index_error
  ok (measured m v)

-- `total` is the wall time of the test.
unfoldable pub throughput : Codec → Service → (ℕ → Json) → ℤ → List ℕ → Result Report
unfolding collect latency_of
throughput c serve payload total order = do
  t ← collect c serve payload order no_results
  l ← latency_of t.latencies
  ok (record { wall = total; success = t.success; fail = t.fail; latency = l })
