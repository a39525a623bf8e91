-- ===== src/Demos/Dp.antt =====
-- examples/dp_demo.py: four data-parallel replicas behind prefix affinity.
pub mod Laws
use radixgates.Base.{
  ℕ, zero, suc, List, [], ◌∷◌, Str, lit, String, ◌%◌, Option, none, some, get_elem?,
}
use radixgates.Base.Int.{ℤ, pos, ◌-ℤ◌, ◌*ℤ◌, ltb_ℤ}
use radixgates.Base.{if◌then◌else◌}
use radixgates.Python.{Result, ok, ◌>>=◌, or_raise, index_error}
use radixgates.Python.Json.{Json, nil, Codec, null}
use radixgates.Stats.{Frac}
use radixgates.Throughput
use radixgates.Throughput.{Report, Latency, measured, unmeasured}

-- `SYSTEM_PROMPTS`
abbrev pub system_prompts : List String
system_prompts =
    "You are a helpful assistant for the engineering team."
    ∷ "You are a helpful assistant for the finance team."
    ∷ "You are a helpful assistant for the sales team."
    ∷ "You are a helpful assistant for the legal team." ∷ []

-- `payloads[i]`, for which `SYSTEM_PROMPTS[i % 4]` is taken; `none` is an IndexError
unfoldable pub payload_of : ℕ → Option Json
payload_of i = elim (get_elem? system_prompts (i % 4)) [
  | none ↦ none
  | some p ↦ some (
      Throughput.chat_payload (
        Throughput.message "system" p
          (Throughput.message "user" "Explain GPU parallelism in 2 sentences." nil)))
]

unfoldable pub payload : ℕ → Json
unfolding payload_of
payload i = elim (payload_of i) [ none ↦ null | some p ↦ p ]

-- The scaling estimate under the report: four times the wall time, and its ratio to the wall time,
-- with 0.1 s, 100000 microseconds, for a shorter one.
pub record Scaling : Type 0 where
  pub sequential : ℤ
  pub ratio_num : ℤ
  pub ratio_den : ℤ

unfoldable pub scaling : ℤ → Scaling
scaling total = record {
  sequential = 4 *ℤ total;
  ratio_num = 4 *ℤ total;
  ratio_den = if ltb_ℤ total (pos 100000) then pos 100000 else total;
}

-- the estimate is printed if some request succeeded
unfoldable pub scaling_of : Report → Option Scaling
unfolding scaling
scaling_of r = elim r.latency [ unmeasured ↦ none | measured m v ↦ some (scaling r.wall) ]

unfoldable pub benchmark_throughput :
    Codec → Throughput.Service → ℤ → List ℕ → Result (Report × Option Scaling)
unfolding payload scaling_of
benchmark_throughput c serve total order = do
  r ← Throughput.throughput c serve payload total order
  ok (r, scaling_of r)
