-- ===== src/Tests/RunMain.antt =====
-- A whole experiment of two policies and two repeats, with a host on which everything works.
use radixgates.Base.{
  Option, some, Bool, false, map, true, ℕ, ◌+◌, ◌*◌, ◌≡◌, refl, List, [], ◌∷◌, none, Str, lit,
  length,
}
use radixgates.Base.Int.{pos}
use radixgates.Python.{ok}
use radixgates.RealEngine.Fleet.{World, Host, late, experiment, start}
use radixgates.RealEngine.Report.{Measured, Results, measure_repeats}
use radixgates.Base.Dict.{TextsDistinct}
use radixgates.Python.Json.{Fields}
use radixgates.RealEngine.Config.{routing_for}
use radixgates.Base.Decimal.{show_ℕ}
use radixgates.Base.{starts_with}
use radixgates.Python.{Result, raise}
use radixgates.RealEngine.Summary.{Summary}
use radixgates.RealEngine.Report.Text.{Medians}
use radixgates.RealEngine.Main.{
  main, default_setting, has_gateway, policies_of, default_policies, default_options, Runs,
  main_results,
}
use radixgates.RealEngine.Main.Steps.{forget}
use radixgates.RealEngine.Main.Runs.{gateways, main_results-experiment}
use radixgates.RealEngine.Main.Values.{main_results-measure_repeats}

abbrev host : Host
host = record {
  spawns = λ p. ok tt;
  healthy = λ p. ok true;
  waits = λ p. late;
  builds_upgraded = ok tt;
  adds_worktree = ok tt;
  builds_original = ok tt;
  warms = ok tt;
  measures = λ n. ok tt;
  removes_worktree = ok true;
  removes_tmp = true;
}

abbrev is_given : Option Fields → Bool
is_given none = false
is_given (some fs) = true

abbrev measured : ℕ → Str → Measured
measured rep policy = record {
  summary = record {
    requests = 0;
    answered = 0;
    cached = record { mantissa = pos 0; places = 0 };
    prompt = record { mantissa = pos 0; places = 0 };
    prefill_p50 = none;
    prefill_p95 = none;
    lat_p50 = none;
    lat_p95 = none;
  };
  share = pos (100 * rep + length policy) ∷ [];
}

abbrev runs : Runs
runs rep policy = ok (measured rep policy)

-- The defaults differ, all but one have a gateway, and three of them have options.
default_policies_distinct : TextsDistinct (policies_of default_policies)
unfolding policies_of
default_policies_distinct = (
  (refl, (refl, (refl, (refl, (refl, tt))))),
  (
    (refl, (refl, (refl, (refl, tt)))),
    ((refl, (refl, (refl, tt))), ((refl, (refl, tt)), ((refl, tt), (tt, tt)))),
  ),
)

default_gateways :
    map has_gateway (policies_of default_policies) ≡ true ∷ true ∷ true ∷ true ∷ true ∷ false ∷ []
unfolding policies_of
default_gateways = refl

default_routing :
    map (λ p. is_given (routing_for p default_options)) (policies_of default_policies)
    ≡ false ∷ false ∷ true ∷ true ∷ true ∷ false ∷ []
unfolding policies_of routing_for
default_routing = refl

abbrev policies : List Str
policies = lit "upgraded" ∷ lit "roundrobin" ∷ []

abbrev results : Results
results =
    (lit "upgraded", measured 0 (lit "upgraded") ∷ measured 1 (lit "upgraded") ∷ [])
    ∷ (lit "roundrobin", measured 0 (lit "roundrobin") ∷ measured 1 (lit "roundrobin") ∷ [])
    ∷ []

whole : (main_results host 2 runs policies 2 start).0 ≡ ok results
unfolding main_results
whole = refl

main_results-experiment_example :
    ((w : World)
      → forget (main_results host 2 runs policies 2 w) ≡ experiment host 2 (gateways policies 2) w)
    × ((main_results host 2 runs policies 2 start).1.running ≡ [])
main_results-experiment_example =
    main_results-experiment host 2 runs policies 2 ((refl, (refl, tt)), ((refl, (refl, tt)), tt))

main_results-measure_repeats_example :
    (main_results host 2 runs policies 2 start).0 ≡ measure_repeats runs policies 2
main_results-measure_repeats_example =
    main_results-measure_repeats host 2 runs policies 2 start
      (refl, refl, refl, refl, λ p. refl, λ p. refl, λ p. refl, (true, refl))

abbrev no_text : List Summary → Result Str
no_text l = ok []

abbrev medians : Medians
medians = record {
  cache_hit = no_text;
  prefill_p50 = no_text;
  prefill_p95 = no_text;
  lat_p50 = no_text;
  lat_p95 = no_text;
  rps = no_text;
}

abbrev begins : Str → Result Str → Bool
begins p (ok s) = starts_with s p
begins p (raise e) = false

-- the text of summary.md for the defaults
written :
    begins
      (lit
        "3 llama-server workers (2 slots each, host-memory prompt cache default (8192 MiB)), 6 distinct system prompts, 120 requests per run, concurrency 6, median of 3 runs.")
      (main host 3 runs (policies_of default_policies) 3 medians default_setting start).0
    ≡ true
unfolding main policies_of show_ℕ
written = refl
