-- ===== src/RealEngine/Summary.antt =====
-- `pct` and `summarize` of benchmarks/real_engine/run_real.py.
use radixgates.Base.{ℕ, List, [], ◌∷◌, Option, Bool, true, false}
use radixgates.Base.{suc, ◌+◌, if◌then◌else◌, ◌-◌, ◌*◌, ◌/◌, min, map, keep, length, get_elem?}
use radixgates.Base.Int.{ℤ, pos, negsuc, ◌+ℤ◌, ◌*ℤ◌}
use radixgates.Base.Decimal.{power_of_ten}
use radixgates.Python.{Result, ok, raise, ◌>>=◌, type_error}
use radixgates.Python.Json.{Json, bool, int, float}
use radixgates.Stats.{sorted}
use radixgates.RealEngine.{Row, failed, served}

-- `pct(xs, q)` for a q of so many hundredths; `none` is NaN
unfoldable pub pct : List ℤ → ℕ → Option ℤ
unfolding sorted
pct xs q = get_elem? (sorted xs) (min (length xs - 1) (q * length xs / 100))

abbrev pub is_ok : Row → Bool
is_ok (failed lat status) = false
is_ok (served lat node prompt cached prefill_ms) = true

abbrev pub latency : Row → ℤ
latency (failed lat status) = lat
latency (served lat node prompt cached prefill_ms) = lat

-- the fields that only an answer has
abbrev pub prompt_tokens : Row → Json
prompt_tokens (failed lat status) = int (pos 0)
prompt_tokens (served lat node prompt cached prefill_ms) = prompt

abbrev pub cached_tokens : Row → Json
cached_tokens (failed lat status) = int (pos 0)
cached_tokens (served lat node prompt cached prefill_ms) = cached

abbrev pub prefill_time : Row → ℤ
prefill_time (failed lat status) = pos 0
prefill_time (served lat node prompt cached prefill_ms) = prefill_ms

-- An exact decimal, `mantissa` / 10 ^ `places`. Python rounds a sum with a float in it.
pub record Amount : Type 0 where
  pub mantissa : ℤ
  pub places : ℕ

-- what `sum` adds: ints, bools and floats
unfoldable pub as_count : Json → Result Amount
as_count (int n) = ok (record { mantissa = n; places = 0 })
as_count (bool b) = ok (record { mantissa = if b then pos 1 else pos 0; places = 0 })
as_count (float m (pos e)) = ok (record { mantissa = power_of_ten e *ℤ m; places = 0 })
as_count (float m (negsuc e)) = ok (record { mantissa = m; places = suc e })
as_count v = raise type_error

abbrev pub add : Amount → Amount → Amount
add a b = record {
  mantissa = (power_of_ten b.places *ℤ a.mantissa) +ℤ (power_of_ten a.places *ℤ b.mantissa);
  places = a.places + b.places;
}

-- `sum(xs)`
unfoldable pub total : List Json → Result Amount
unfolding as_count
total [] = ok (record { mantissa = pos 0; places = 0 })
total (x ∷ xs) = do n ← as_count x; rest ← total xs; ok (add n rest)

-- What `summarize` returns: the hit rate is `cached` / `prompt`, or 0 without prompt tokens, and
-- the request rate is `answered` over the wall time.
pub record Summary : Type 0 where
  pub requests : ℕ
  pub answered : ℕ
  pub cached : Amount
  pub prompt : Amount
  pub prefill_p50 : Option ℤ
  pub prefill_p95 : Option ℤ
  pub lat_p50 : Option ℤ
  pub lat_p95 : Option ℤ

unfoldable pub summarize : List Row → Result Summary
unfolding pct total
summarize rows =
    let served_rows = keep is_ok rows in
    total (map prompt_tokens served_rows) >>= λ prompt.
    total (map cached_tokens served_rows) >>= λ cached. ok (record {
      requests = length rows;
      answered = length served_rows;
      cached = cached;
      prompt = prompt;
      prefill_p50 = pct (map prefill_time served_rows) 50;
      prefill_p95 = pct (map prefill_time served_rows) 95;
      lat_p50 = pct (map latency served_rows) 50;
      lat_p95 = pct (map latency served_rows) 95;
    })
