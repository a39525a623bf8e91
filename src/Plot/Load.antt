-- ===== src/Plot/Load.antt =====
-- The files that benchmarks/scripts/plot.py reads, and what it draws of them: `load`,
-- `fault_window` and the data of `timeline`.
pub mod Window
use radixgates.Base.{
  ℕ, zero, suc, ◌+◌, ◌-◌, ◌*◌, ◌/◌, List, [], ◌∷◌, Option, none, some, Bool, true, false, ◌==◌,
  ◌||◌, any, Str, lit, str_eq, if◌then◌else◌,
}
use radixgates.Base.Int.{ℤ, pos, negsuc, leb_ℤ}
use radixgates.Base.Dict.{Dict, lookup}
use radixgates.Python.{Result, ok, raise, ◌>>=◌, or_raise, key_error, value_error, json_error}
use radixgates.Python.Json.{Json, Codec, by_key}
use radixgates.Servers.Search.{is_digit, first_match}
use radixgates.Plot.{second, Request, Second, Percentile, per_second}

-- `float` of a text, in millionths
abbrev pub Reals : Type 0
Reals = Str → Option ℤ

abbrev pub number_in : Reals → Dict Str → Str → Result ℤ
number_in floats r k = or_raise (lookup k r) key_error >>= λ s. or_raise (floats s) value_error

-- One row of requests.csv, which `csv.DictReader` gives as a dict, with a cell for every column. The
-- latency is in nanoseconds.
unfoldable pub request_in : Reals → Dict Str → Result Request
request_in floats r = do
  at ← number_in floats r (lit "t_s")
  latency ← number_in floats r (lit "latency_ms")
  success ← or_raise (lookup (lit "ok") r) key_error
  ok (record { at = at; latency = latency; success = str_eq success (lit "true") })

abbrev pub requests_in : Reals → List (Dict Str) → Result (List Request)
requests_in floats [] = ok []
requests_in floats (r ∷ rows) = do
  q ← request_in floats r
  rest ← requests_in floats rows
  ok (q ∷ rest)

-- The rows of requests.csv and the text of summary.json, or what opening them raises.
pub record ResultFiles : Type 0 where
  pub requests : Result (List (Dict Str))
  pub summary : Result Str

unfoldable pub load : Reals → Codec → ResultFiles → Result (List Request × Json)
unfolding request_in
load floats c fs = do
  rows ← fs.requests
  requests ← requests_in floats rows
  text ← fs.summary
  summary ← or_raise (c.loads text) json_error
  ok (requests, summary)

-- what follows a literal of the pattern
abbrev pub after_text : Str → Str → Option Str
after_text [] s = some s
after_text (d ∷ p) [] = none
after_text (d ∷ p) (c ∷ s) = let more = after_text p s in if d == c then more else none

-- the digits that a text begins with, added to a number, and what follows them
abbrev pub digits_of : ℕ → Str → ℕ × Str
digits_of n [] = (n, [])
digits_of n (c ∷ s) =
    let more = digits_of (10 * n + (c - 48)) s in if is_digit c then more else (n, c ∷ s)

-- `(\d+)`
abbrev pub number_of : Str → Option (ℕ × Str)
number_of [] = none
number_of (c ∷ s) = if is_digit c then some (digits_of 0 (c ∷ s)) else none

abbrev pub then_on : {A B : Type 0} → Option A → (A → Option B) → Option B
then_on none k = none
then_on (some a) k = k a

-- `fault at (\d+)s, recover at (\d+)s`, at the start of a text
unfoldable pub window_at : Str → Option (ℕ × ℕ)
window_at s = then_on (after_text (lit "fault at ") s) λ s₁. then_on (number_of s₁) λ (a, s₂).
    then_on (after_text (lit "s, recover at ") s₂)
      λ s₃. then_on (number_of s₃) λ (b, s₄). then_on (after_text (lit "s") s₄) λ _. some (a, b)

-- `re.search`; `none` is None
unfoldable pub fault_window : Str → Option (ℕ × ℕ)
unfolding window_at
fault_window [] = none
fault_window (c ∷ s) = first_match (window_at (c ∷ s)) (fault_window s)

abbrev is_nan : {A : Type 0} → Option A → Bool
is_nan none = true
is_nan (some a) = false

abbrev whole_seconds : ℤ → ℕ
whole_seconds (pos n) = n / second
whole_seconds (negsuc n) = 0

-- What `timeline` draws of one mode: the seconds of the plot, and whether a line of the latency has
-- a gap.
unfoldable pub has_gap : List Second → Bool
has_gap l = any (λ (s : Second). is_nan s.latency_p95) l

-- `int(min(...))` of the two durations, in millionths of a second, which are not negative
unfoldable pub horizon_of : ℤ → ℤ → ℕ
horizon_of original upgraded =
    whole_seconds (if leb_ℤ original upgraded then original else upgraded)

-- what the plot of a scenario shows: the seconds of both modes, the note on gaps, and the window
pub record Timeline : Type 0 where
  pub original : List Second
  pub upgraded : List Second
  pub gap_note : Bool
  pub window : Option (ℕ × ℕ)

unfoldable pub timeline : Percentile → List Request × ℤ → List Request × ℤ → Str → Timeline
unfolding per_second horizon_of has_gap fault_window
timeline percentile original upgraded env =
    let horizon = horizon_of original.1 upgraded.1 in
    record {
      original = per_second percentile original.0 horizon;
      upgraded = per_second percentile upgraded.0 horizon;
      gap_note = has_gap (per_second percentile original.0 horizon);
      window = fault_window env;
    }
