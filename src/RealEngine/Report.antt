-- ===== src/RealEngine/Report.antt =====
-- The measurement of a run, the results of the policies, and the files that `main` of
-- benchmarks/real_engine/run_real.py writes.
pub mod Text
pub mod Keys
pub mod Laws
pub mod Complete
use radixgates.Base.{
  ℕ, zero, suc, ◌+◌, ◌*◌, ◌/◌, List, [], ◌∷◌, ◌++◌, map, length, get_elem?, range_from, Option,
  none, some, Str, lit, str_eq, if◌then◌else◌,
}
use radixgates.Base.Int.{ℤ, pos, negsuc}
use radixgates.Base.Dict.{has_key, Dict, insert}
use radixgates.Base.Decimal.{show_ℕ}
use radixgates.Python.{raise, key_error, Result, ok, raise, ◌>>=◌, ◌>>◌, or_raise, index_error}
use radixgates.Python.Json.{Json, Codec}
use radixgates.RealEngine.{Args, Servers, Sent, Row, failed, served, run_policy}
use radixgates.RealEngine.Summary.{Summary, summarize}
use radixgates.RealEngine.Workload.{join}
use radixgates.RealEngine.Config.{Options, Post, gateway_port, erase_caches}
use radixgates.RealEngine.Counters.{Floats, prefill_counters, worker_share}

-- What the servers do in one run: how they answer, and their metrics before and after it.
pub record Site : Type 0 where
  pub codec : Codec
  pub floats : Floats
  pub post : Post
  pub serve : Servers
  pub before : ℕ → Result Str
  pub after : ℕ → Result Str

-- the dict `s`
pub record Measured : Type 0 where
  pub summary : Summary
  pub share : List ℤ

-- the part of the command line that a run uses
abbrev pub run_args : Options → ℕ → Args
run_args args max_tokens = record {
  workers = args.workers;
  max_tokens = max_tokens;
  concurrency = args.concurrency;
}

-- the answers and the tokens of one run, from the erasing of the caches on
unfoldable pub measure_run :
    Site → Options → ℕ → Str → List Str → List (ℕ × Str) → Result (Measured × List Row)
unfolding erase_caches prefill_counters run_policy summarize worker_share
measure_run b args max_tokens policy prompts reqs = do
  erase_caches args b.post
  before ← prefill_counters b.floats b.before args.workers
  sent ← run_policy b.codec policy (run_args args max_tokens) prompts gateway_port b.serve reqs
  after ← prefill_counters b.floats b.after args.workers
  summary ← summarize (map (λ (s : Sent). s.row) sent)
  ok (
    record { summary = summary; share = worker_share before after },
    map (λ (s : Sent). s.row) sent,
  )

-- What a cell of a CSV file is written from.
pub data Cell : Type 0 where
  number : ℤ → Cell
  json : Json → Cell
  text : Str → Cell

abbrev pub blank : Cell
blank = text []

abbrev pub fieldnames : List Str
fieldnames =
    lit "ok"
    ∷ lit "lat"
    ∷ lit "node"
    ∷ lit "prompt"
    ∷ lit "cached"
    ∷ lit "prefill_ms"
    ∷ lit "status"
    ∷ []

-- `r.get(k, "")` for each of them
unfoldable pub csv_row : Row → List Cell
csv_row (failed lat status) =
    number (pos 0) ∷ number lat ∷ blank ∷ blank ∷ blank ∷ blank ∷ number status ∷ []
csv_row (served lat node prompt cached prefill_ms) =
    number (pos 1)
    ∷ number lat
    ∷ text node
    ∷ json prompt
    ∷ json cached
    ∷ number prefill_ms
    ∷ blank
    ∷ []

abbrev pub Results : Type 0
Results = Dict (List Measured)

-- `{p: [] for p in policies}`, from what stands in it
unfoldable pub add_policies : List Str → Results → Results
add_policies [] d = d
add_policies (p ∷ policies) d = add_policies policies (insert p [] d)

-- one more measurement of a policy that is there
unfoldable pub append_result : Str → Measured → Results → Results
append_result policy s [] = []
append_result policy s ((p, runs) ∷ d) =
    let rest = append_result policy s d in
    if str_eq policy p then (p, runs ++ (s ∷ [])) ∷ d else (p, runs) ∷ rest

-- `results[policy].append(s)`
unfoldable pub append_to : Str → Measured → Results → Result Results
unfolding append_result
append_to policy s d = if has_key policy d then ok (append_result policy s d) else raise key_error

-- The policies of one repeat, of which `run` gives the measurements.
unfoldable pub run_policies : (Str → Result Measured) → List Str → Results → Result Results
unfolding append_to
run_policies run [] d = ok d
run_policies run (policy ∷ policies) d =
    run policy >>= λ s. append_to policy s d >>= λ d'. run_policies run policies d'

-- so many repeats from the rep-th on
unfoldable pub run_repeats :
    (ℕ → Str → Result Measured) → List Str → ℕ → ℕ → Results → Result Results
unfolding run_policies
run_repeats run policies zero rep d = ok d
run_repeats run policies (suc n) rep d =
    run_policies (run rep) policies d >>= λ d'. run_repeats run policies n (suc rep) d'

unfoldable pub measure_repeats : (ℕ → Str → Result Measured) → List Str → ℕ → Result Results
unfolding run_repeats add_policies
measure_repeats run policies repeats = run_repeats run policies repeats 0 (add_policies policies [])
