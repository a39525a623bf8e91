-- ===== src/Demos/Prefix.antt =====
-- `test_prefix_hash_routing` of examples/dp_demo.py: four prefixes are sent twice, and the times of
-- the two rounds are compared.
pub mod Times
pub mod Laws
use radixgates.Base.{
  ℕ, ◌*◌, List, [], ◌∷◌, ◌++◌, Str, lit, Option, none, some, Bool, true, false, ◌&&◌, get_elem?,
  if◌then◌else◌,
}
use radixgates.Base.Int.{ℤ, pos, ◌-ℤ◌, ◌*ℤ◌, ltb_ℤ}
use radixgates.Base.Dict.{Dict, lookup, insert}
use radixgates.Base.Decimal.{show_ℕ}
use radixgates.Python.{Result, ok, raise, ◌>>=◌, or_raise, key_error, index_error}
use radixgates.Python.Json.{Json, str, bool, int, obj, arr, nil, field, end, Codec}
use radixgates.Ttft.{Stream, read_stream, or_elapsed}
use radixgates.Throughput.{message}
use radixgates.Demos.Dp.{system_prompts}

-- the body of a request with the i-th prompt
unfoldable pub payload : ℕ → Option Json
payload i = elim (get_elem? system_prompts i) [
  | none ↦ none
  | some p ↦ some (
      obj (
        field (lit "messages")
          (arr (message "system" p (message "user" "What is a GPU in one sentence?" nil)))
          (field (lit "stream") (bool true) (field (lit "max_tokens") (int (pos 1)) end))))
]

-- What the gateway does with the i-th request of a round, given its body.
abbrev pub Service : Type 0
Service = ℕ → Json → ℤ × Stream

-- `send`, whose loop is that of `measure_ttft`, without a `try` around the request
unfoldable pub send : Codec → Service → ℕ → Result ℤ
unfolding payload read_stream or_elapsed
send c serve i = do
  b ← or_raise (payload i) index_error
  let (t, s) = serve i b
  (ttft, now) ← read_stream c t none s
  ok (or_elapsed ttft (now -ℤ t))

-- `f"prefix-{i}"`
unfoldable pub label : ℕ → Str
unfolding show_ℕ
label i = lit "prefix-" ++ show_ℕ i

-- The times of a round, by label, in the order in which the requests complete.
unfoldable pub round : Codec → Service → List ℕ → Dict ℤ → Result (Dict ℤ)
unfolding send label
round c serve [] times = ok times
round c serve (i ∷ order) times = do
  ttft ← send c serve i
  round c serve order (insert (label i) ttft times)

-- `all(warm_times[k] < cold_times[k] * 0.9 for k in cold_times)`
unfoldable pub all_faster : Dict ℤ → Dict ℤ → Result Bool
all_faster warm [] = ok true
all_faster warm ((k, cold) ∷ times) = do
  w ← or_raise (lookup k warm) key_error
  let faster = ltb_ℤ (10 *ℤ w) (9 *ℤ cold)
  rest ← if faster then all_faster warm times else ok false
  ok (faster && rest)

-- whether the last line says that warm times are materially below cold ones
unfoldable pub test_prefix_hash_routing : Codec → Service → Service → List ℕ → List ℕ → Result Bool
unfolding round all_faster
test_prefix_hash_routing c cold_serve warm_serve cold_order warm_order = do
  cold_times ← round c cold_serve cold_order []
  warm_times ← round c warm_serve warm_order []
  all_faster warm_times cold_times
