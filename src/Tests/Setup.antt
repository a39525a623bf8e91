-- ===== src/Tests/Setup.antt =====
-- A server that answers at last, two workers with two slots each, and a page of metrics.
use radixgates.Base.{
  ℕ, zero, suc, ◌+◌, ◌*◌, ◌<◌, ◌≡◌, refl, ◌↔◌, List, [], ◌∷◌, ◌++◌, none, some, Str, lit, true,
  is_space, is_line_end, ltb, if◌then◌else◌, arith,
}
use radixgates.Base.Int.{ℤ, pos}
use radixgates.Python.{ok, raise, os_error, or_raise, value_error}
use radixgates.RealEngine.{worker_base_port}
use radixgates.RealEngine.Wait.{Clock, Probes, wait_http}
use radixgates.RealEngine.Config.{Options, Post, routing_for, config, gateway_port, erase_caches}
use radixgates.RealEngine.Config.Laws.{serves, run_policy-config}
use radixgates.RealEngine.Counters.{Floats, counter_in}
use radixgates.RealEngine.Counters.Laws.{page, counter_line, counter_in-page}
use radixgates.Base.{get_elem?, ◌/◌, map, length, range_from}
use radixgates.Base.Int.{negsuc, ◌-ℤ◌}
use radixgates.Base.Decimal.{show_ℕ}
use radixgates.Base.Dict.{lookup}
use radixgates.RealEngine.{Row, Sent, failed, lost, run_policy}
use radixgates.RealEngine.Summary.{summarize}
use radixgates.RealEngine.Report.{Site, Measured, Results, run_args, measure_run, measure_repeats}
use radixgates.RealEngine.Report.Text.{Medians, middle_share, policy_line}
use radixgates.RealEngine.Report.Laws.{measure_repeats-share}
use radixgates.RealEngine.Report.Complete.{Counts, measure_run_complete}
use radixgates.Tests.Samples.{codec}

-- a turn takes 600 ms
abbrev clock : Clock
clock i = 600 * i

-- no connection, then a model that is loading, then an answer
abbrev probes : Probes
probes zero = raise os_error
probes (suc zero) = ok 503
probes (suc (suc i)) = ok 200

up : wait_http clock probes 2 ≡ some (ok true)
unfolding wait_http
up = refl

abbrev args : Options
args = record { workers = 2; slots = 2; concurrency = 6; affinity_wait = lit "10s" }

-- The second worker is down.
abbrev post : Post
post port path body = if ltb port 9102 then ok tt else raise os_error

erase : erase_caches args post ≡ raise os_error
unfolding erase_caches
erase = refl

abbrev floats : Floats
floats s = some (pos 42)

abbrev comments : List Str
comments = lit "# TYPE llamacpp:prompt_tokens_total counter" ∷ lit "" ∷ []

counter_in-page_example :
    counter_in floats (page comments (counter_line (lit "42") ++ (10 ∷ lit "llamacpp:n_decode 3")))
    ≡ or_raise (floats (lit "42")) value_error
unfolding is_line_end is_space
counter_in-page_example =
    counter_in-page floats comments 52 (lit "2") (lit "llamacpp:n_decode 3")
      ((refl, refl), ((refl, refl), tt)) refl

-- The tokens of a worker tell the repeat and the policy.
abbrev measured : ℕ → Str → Measured
measured rep policy = record {
  summary = record {
    requests = 0;
    answered = 0;
    cached = record { mantissa = pos 0; places = 0 };
    prompt = record { mantissa = pos 0; places = 0 };
    prefill_p50 = none;
    prefill_p95 = none;
    lat_p50 = none;
    lat_p95 = none;
  };
  share = pos (10 * rep + length policy) ∷ [];
}

abbrev policies : List Str
policies = lit "original" ∷ lit "upgraded" ∷ lit "roundrobin" ∷ []

measure_repeats-share_example :
    (d : Results) × (measure_repeats (λ rep policy. ok (measured rep policy)) policies 3 ≡ ok d)
    × (lookup (lit "roundrobin") d
        ≡ some (map (λ rep. measured rep (lit "roundrobin")) (range_from 3 0)))
    × (middle_share (map (λ rep. measured rep (lit "roundrobin")) (range_from 3 0))
        ≡ ok (measured (3 / 2) (lit "roundrobin")).share)
measure_repeats-share_example =
    measure_repeats-share measured policies 3 (lit "roundrobin")
      ((refl, (refl, tt)), ((refl, tt), (tt, tt))) refl (omega arith)

-- Every column is the number of runs.
abbrev medians : Medians
medians = record {
  cache_hit = λ l. ok (show_ℕ (length l));
  prefill_p50 = λ l. ok (show_ℕ (length l));
  prefill_p95 = λ l. ok (show_ℕ (length l));
  lat_p50 = λ l. ok (show_ℕ (length l));
  lat_p95 = λ l. ok (show_ℕ (length l));
  rps = λ l. ok (show_ℕ (length l));
}

line :
    policy_line medians (lit "upgraded") (measured 0 (lit "a") ∷ measured 1 (lit "a") ∷ [])
    ≡ ok (lit "| upgraded | 2 | 2 / 2 | 2 / 2 | 2 | 11 |")
unfolding policy_line show_ℕ
line = refl

abbrev site : Site
site = record {
  codec = codec;
  floats = λ s. some (pos (length s));
  post = λ port path body. ok tt;
  serve = λ i port path body. record { sent = pos 0; received = pos 9; result = lost os_error };
  before = λ port. ok (counter_line (lit "7"));
  after = λ port. ok (counter_line (lit "700"));
}

abbrev lost_row : Row
lost_row = failed (pos 9) (negsuc 0)

abbrev result : Measured
result = record {
  summary = record {
    requests = 1;
    answered = 0;
    cached = record { mantissa = pos 0; places = 0 };
    prompt = record { mantissa = pos 0; places = 0 };
    prefill_p50 = none;
    prefill_p95 = none;
    lat_p50 = none;
    lat_p95 = none;
  };
  share = pos 2 ∷ pos 2 ∷ [];
}

measured_run :
    measure_run site args 8 (lit "roundrobin") (lit "schema" ∷ []) ((0, lit "q") ∷ [])
    ≡ ok (result, lost_row ∷ [])
unfolding measure_run is_space is_line_end ◌-ℤ◌
measured_run = refl

measure_run_complete_example :
    ((i slot : ℕ)
      → i < 2
      → slot < 2
      → site.post (worker_base_port + i) (lit "/slots/" ++ show_ℕ slot ++ lit "?action=erase") none
        ≡ ok tt)
    × (length (lost_row ∷ []) ≡ 1)
    × (summarize (lost_row ∷ []) ≡ ok result.summary)
    × (result.summary.requests ≡ 1)
    × (length result.share ≡ 2)
    × ((i : ℕ)
        → i < 2
        → (x y : ℤ) × Counts site.floats site.before i x
          × Counts site.floats site.after i y
          × (get_elem? result.share i ≡ some (y -ℤ x)))
measure_run_complete_example =
    measure_run_complete site args 8 (lit "roundrobin") (lit "schema" ∷ []) ((0, lit "q") ∷ [])
      result (lost_row ∷ []) measured_run

-- Three requests, for two workers.
abbrev three : List (ℕ × Str)
three = (0, lit "a") ∷ (0, lit "b") ∷ (0, lit "c") ∷ []

abbrev lost_at : ℕ → Sent
lost_at port = record { port = port; path = lit "/v1/chat/completions"; row = lost_row }

three_sent :
    run_policy codec
      (lit "roundrobin")
      (run_args args 8)
      (lit "schema" ∷ [])
      gateway_port
      site.serve
      three
    ≡ ok (lost_at 9101 ∷ lost_at 9102 ∷ lost_at 9101 ∷ [])
unfolding run_policy ◌-ℤ◌
three_sent = refl

run_policy-config_example :
    (serves 9102 (config args (routing_for (lit "upgraded_wait") args)) ≡ true) ↔ (
      (i : ℕ) × (s : Sent) × (get_elem? (lost_at 9101 ∷ lost_at 9102 ∷ lost_at 9101 ∷ []) i
        ≡ some s)
      × (s.port ≡ 9102))
run_policy-config_example =
    run_policy-config codec args 8 (lit "schema" ∷ []) site.serve three _ 9102
      (routing_for (lit "upgraded_wait") args) three_sent (omega arith) (omega arith)
