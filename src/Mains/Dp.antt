-- ===== src/Mains/Dp.antt =====
-- `main` of examples/dp_demo.py.
use radixgates.Base.{ℕ, ◌-◌, List, [], ◌∷◌, ◌++◌, Str, lit, ltb, length, if◌then◌else◌}
use radixgates.Base.Decimal.{show_ℕ}
use radixgates.Demos.Gateway.{check_gateway}
use radixgates.Demos.Dp.{benchmark_throughput}
use radixgates.Demos.Prefix
use radixgates.Demos.Prefix.{test_prefix_hash_routing}
use radixgates.Hardware.Spread.{dp_check}
use radixgates.Hardware.Tag.{print_hw_info}
use radixgates.Servers.Dp.{Node, check_all_nodes}
use radixgates.Script.{Part, Script, ◌>>=◌, ◌>>◌, say, call, pass_interrupt}
use radixgates.Script.LogName.{Demo, log_path}
use radixgates.Mains.{Host, Bench, Gpus, bar, warning_sign, save, time_of}

-- The nodes, and what the gateway does in the two rounds of the prefix-affinity test, with the
-- orders in which their requests complete.
pub record Nodes : Type 0 where
  pub nodes : List Node
  pub cold : Prefix.Service
  pub warm : Prefix.Service
  pub cold_order : List ℕ
  pub warm_order : List ℕ

abbrev header : Host → List Str
header h =
    (bar 60)
    ∷ (lit "🔬 RadixGates — Data Parallel (DP=4) validation")
    ∷ (lit "   GPU 0 (:30000)  GPU 1 (:30001)")
    ∷ (lit "   GPU 2 (:30002)  GPU 3 (:30003)")
    ∷ (lit "   One independent model replica per GPU")
    ∷ (lit "   Gateway: " ++ h.gateway_url)
    ∷ (bar 60)
    ∷ []

abbrev warning : ℕ → ℕ → List Str
warning healthy nodes =
    if ltb healthy nodes
    then ((lit "\n" ++ warning_sign ++ lit "  ")
        ++ show_ℕ (nodes - healthy)
        ++ lit " workers are not ready; continuing with partial results")
      ∷ []
    else []

abbrev interpretation : List Str
interpretation =
    (10 ∷ bar 60)
    ∷ (lit "💡 Interpretation:")
    ∷ (lit "  Four healthy workers establish that DP=4 is ready")
    ∷ (lit "  Warm-versus-cold TTFT checks whether affinity preserves cache locality")
    ∷ (lit "  The 40-request result is measured; the scaling ratio above is only an estimate")
    ∷ []
    ∷ (lit "  Choosing a parallel mode:")
    ∷ (lit "    DP — replicate a model that fits on one GPU for aggregate throughput")
    ∷ (lit "    TP — shard dense weights when a model does not fit on one GPU")
    ∷ (lit "    EP — shard experts in an MoE model and route tokens with All-to-All")
    ∷ (bar 60)
    ∷ []

abbrev closing : Host → Str → List Str
closing h hw_tag =
    (lit "\n[log saved → " ++ log_path Demo.dp h.log_dir h.stamp ++ lit "]")
    ∷ (lit "[machine   → " ++ hw_tag ++ lit "]")
    ∷ []

unfoldable pub benchmarks : Host → Nodes → Bench → Script (Unit {0})
unfolding test_prefix_hash_routing benchmark_throughput
benchmarks h n b = do
  call Part.prefixes (test_prefix_hash_routing h.codec n.cold n.warm n.cold_order n.warm_order)
  call Part.load (benchmark_throughput h.codec b.load b.wall b.order)
  say []

unfoldable pub main : Host → Gpus → Nodes → Bench → Script (Unit {0})
unfolding print_hw_info check_gateway check_all_nodes dp_check benchmarks
main h g n b = do
  say (header h)
  hw_tag ← call Part.hardware (print_hw_info g.names g.topo)
  call Part.gateway (check_gateway h.codec h.health)
  healthy ← call Part.nodes (check_all_nodes h.codec n.nodes)
  say (warning healthy (length n.nodes))
  call Part.memory (dp_check g.before)
  pass_interrupt (benchmarks h n b)
  say interpretation
  call Part.logs (save h (time_of Demo.dp h ++ (95 ∷ hw_tag)))
  say (closing h hw_tag)
