-- ===== src/Plot.antt =====
-- benchmarks/scripts/plot.py: the success rate and the latency of the requests of each second.
-- Times are in microseconds. `numpy.percentile` is a parameter.
pub mod Buckets
pub mod Load
use radixgates.Base.{
  ℕ, zero, suc, ◌*◌, List, [], ◌∷◌, ◌++◌, Option, none, some, Bool, ◌&&◌, leb, length, map, keep,
  count_if, range_from, is_empty, if◌then◌else◌,
}
use radixgates.Base.Int.{ℤ, pos, leb_ℤ, ltb_ℤ}
use radixgates.Stats.{Frac}

-- a row of requests.csv, as `load` reads it: when it began, its latency, and whether it succeeded
pub record Request : Type 0 where
  pub at : ℤ
  pub latency : ℤ
  pub success : Bool

abbrev pub second : ℕ
second = 1000000

-- `s <= t < s + 1`
abbrev pub is_within : ℕ → Request → Bool
is_within s r = leb_ℤ (pos (s * second)) r.at && ltb_ℤ r.at (pos (suc s * second))

unfoldable pub bucket : ℕ → List Request → List Request
bucket s rows = keep (is_within s) rows

abbrev pub Percentile : Type 0
Percentile = List ℤ → Frac

-- One second: the success rate in percent, as a fraction, and the 95th percentile of the latency
-- of the successes, of which there must be five. `none` is NaN.
pub record Second : Type 0 where
  pub requests : ℕ
  pub successes : ℕ
  pub rate : Option (ℕ × ℕ)
  pub latency_p95 : Option Frac

abbrev pub succeeded : Request → Bool
succeeded r = r.success

unfoldable pub second_of : Percentile → List Request → Second
second_of percentile b =
    let lats = map (λ (r : Request). r.latency) (keep succeeded b) in
    let ok = count_if succeeded b in
    record {
      requests = length b;
      successes = ok;
      rate = if is_empty b then none else some (100 * ok, length b);
      latency_p95 =
          if is_empty b then none else if leb 5 (length lats) then some (percentile lats) else none;
    }

-- `per_second(rows, horizon)`, from second `s` on
unfoldable pub seconds_from : Percentile → List Request → ℕ → ℕ → List Second
unfolding second_of bucket
seconds_from percentile rows zero s = []
seconds_from percentile rows (suc n) s =
    second_of percentile (bucket s rows) ∷ seconds_from percentile rows n (suc s)

unfoldable pub per_second : Percentile → List Request → ℕ → List Second
unfolding seconds_from
per_second percentile rows horizon = seconds_from percentile rows horizon 0
