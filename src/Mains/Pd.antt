-- ===== src/Mains/Pd.antt =====
-- `main` of examples/pd_demo.py.
use radixgates.Base.{List, [], ◌∷◌, ◌++◌, Str, lit}
use radixgates.Demos.Gateway.{check_direct}
use radixgates.Demos.Pd.{benchmark_ttft, benchmark_throughput}
use radixgates.Script.{Part, Script, ◌>>◌, say, call, pass_interrupt}
use radixgates.Script.LogName.{Demo}
use radixgates.Mains.{Host, Bench, bar, save, time_of}

abbrev header : Host → List Str
header h =
    (bar 60)
    ∷ (lit "🔬 RadixGates — prefill/decode disaggregation validation")
    ∷ (lit "   Prefill: GPU 0 (:30000)  Decode: GPU 1 (:30001)")
    ∷ (lit "   Gateway: " ++ h.gateway_url)
    ∷ (bar 60)
    ∷ []

abbrev launch_options : List Str
launch_options =
    (lit "\nLaunch options:")
    ∷ (lit "  docker compose -f docker-compose.pd.yml up -d")
    ∷ (lit "    → mooncake transfer backend")
    ∷ (lit
        "  PREFILL_BACKEND=mooncake DECODE_BACKEND=fake docker compose -f docker-compose.pd.yml up -d")
    ∷ (lit "    → routing-only validation; no real KV-cache transfer")
    ∷ []

abbrev interpretation : List Str
interpretation =
    (10 ∷ bar 60)
    ∷ (lit "💡 Interpretation:")
    ∷ (lit "  Compare TTFT and throughput with a same-model combined-mode baseline")
    ∷ (lit "  This script alone validates the PD path; it does not establish a speedup")
    ∷ (bar 60)
    ∷ []

unfoldable pub benchmarks : Host → Bench → Script (Unit {0})
unfolding benchmark_ttft benchmark_throughput
benchmarks h b = do
  call Part.ttft (benchmark_ttft h.codec b.ttft)
  call Part.load (benchmark_throughput h.codec b.load b.wall b.order)
  say []

unfoldable pub main : Host → Bench → Script (Unit {0})
unfolding check_direct benchmarks
main h b = do
  say (header h)
  call Part.gateway (check_direct h.codec h.health)
  say launch_options
  pass_interrupt (benchmarks h b)
  say interpretation
  call Part.logs (save h (time_of Demo.pd h))
  say []
