-- ===== src/Mains/Tp.antt =====
-- `main` of examples/tp_demo.py.
pub mod Ends
use radixgates.Base.{List, [], ◌∷◌, ◌++◌, Str, lit, Bool, if◌then◌else◌}
use radixgates.Python.Json.{Json}
use radixgates.Demos.Gateway.{check_gateway}
use radixgates.Demos.Tp.{benchmark_ttft, benchmark_throughput}
use radixgates.Hardware.{check_gpu_memory}
use radixgates.Hardware.Tag.{print_hw_info}
use radixgates.Servers.Tp.{check_tp_active}
use radixgates.Script.{Part, Script, ◌>>=◌, ◌>>◌, say, call, pass_interrupt}
use radixgates.Script.LogName.{Demo, log_path}
use radixgates.Mains.{Host, Bench, Gpus, Server, bar, warning_sign, save, time_of}

abbrev header : Host → List Str
header h =
    (bar 60)
    ∷ (lit "🔬 RadixGates — Tensor Parallel (TP) validation")
    ∷ (lit "   SGLang TP instance: GPU 0 + GPU 1 (:30000)")
    ∷ (lit "   Gateway: " ++ h.gateway_url)
    ∷ (bar 60)
    ∷ []

abbrev warning : Bool → List Str
warning tp_ok =
    if tp_ok
    then []
    else (lit "\n"
        ++ warning_sign
        ++ lit "  TP was not confirmed; continuing, but treat results as diagnostic only")
      ∷ []

abbrev verdict : Server → Bool → Json → Str
verdict v tp_ok tp_size_found =
    if tp_ok
    then lit "  tensor_parallel_size=" ++ v.show tp_size_found ++ lit " confirmed ✅"
    else lit "  tp_size was not exposed; memory distribution is supporting evidence only"

abbrev interpretation : Server → Bool → Json → List Str
interpretation v tp_ok tp_size_found =
    (10 ∷ bar 60)
    ∷ (lit "💡 Interpretation:")
    ∷ (verdict v tp_ok tp_size_found)
    ∷ (lit "  Material allocation on every rank is consistent with weight sharding")
    ∷ (lit "  Do not infer a TP speedup without a same-model, same-host baseline")
    ∷ []
    ∷ (lit "  TP versus PD:")
    ∷ (lit "    TP — shard a model that does not fit on one GPU")
    ∷ (lit "    PD — separate prefill and decode resource pools")
    ∷ (lit "    TP+PD — combine both when the deployment and model justify it")
    ∷ (bar 60)
    ∷ []

abbrev closing : Host → Str → List Str
closing h hw_tag =
    (lit "\n[log saved → " ++ log_path Demo.tp h.log_dir h.stamp ++ lit "]")
    ∷ (lit "[machine   → " ++ hw_tag ++ lit "]")
    ∷ []

unfoldable pub benchmarks : Host → Bench → Script (Unit {0})
unfolding benchmark_ttft benchmark_throughput
benchmarks h b = do
  call Part.ttft (benchmark_ttft h.codec b.ttft)
  call Part.load (benchmark_throughput h.codec b.load b.wall b.order)
  say []

unfoldable pub main : Host → Gpus → Server → Bench → Script (Unit {0})
unfolding print_hw_info check_gateway check_tp_active check_gpu_memory benchmarks
main h g v b = do
  say (header h)
  hw_tag ← call Part.hardware (print_hw_info g.names g.topo)
  call Part.gateway (check_gateway h.codec h.health)
  (tp_ok, tp_size_found) ←
      call Part.parallel (check_tp_active h.codec v.args v.files v.sglang_log v.info)
  call Part.memory (check_gpu_memory g.before)
  say (warning tp_ok)
  pass_interrupt (benchmarks h b)
  call Part.memory (check_gpu_memory g.after)
  say (interpretation v tp_ok tp_size_found)
  call Part.logs (save h (time_of Demo.tp h ++ (95 ∷ hw_tag)))
  say (closing h hw_tag)
