-- ===== src/Mains/Ep.antt =====
-- `main` of examples/ep_demo.py.
use radixgates.Base.{List, [], ◌∷◌, ◌++◌, Str, lit, Bool, if◌then◌else◌}
use radixgates.Demos.Gateway.{check_gateway}
use radixgates.Demos.Ep.{benchmark_ttft, benchmark_throughput}
use radixgates.Hardware.Spread.{ep_check}
use radixgates.Hardware.Tag.{print_hw_info}
use radixgates.Servers.Ep.{EpReport, check_ep_active}
use radixgates.Servers.Scan.{check_alltoall_in_logs}
use radixgates.Script.{Part, Script, ◌>>=◌, ◌>>◌, say, call, pass_interrupt}
use radixgates.Script.LogName.{Demo, log_path}
use radixgates.Mains.{Host, Bench, Gpus, Server, bar, warning_sign, save, time_of}

abbrev header : Host → List Str
header h =
    (bar 60)
    ∷ (lit "🔬 RadixGates — Expert Parallel (EP) + All-to-All validation")
    ∷ (lit "   GPU 0: Expert  0-63")
    ∷ (lit "   GPU 1: Expert 64-127")
    ∷ (lit "   Token routing across expert ranks uses All-to-All dispatch and gather")
    ∷ (lit "   Gateway: " ++ h.gateway_url)
    ∷ (bar 60)
    ∷ []

abbrev warning : Bool → List Str
warning ep_ok =
    if ep_ok
    then []
    else (lit "\n"
        ++ warning_sign
        ++ lit "  EP was not confirmed by API/log; continuing for diagnostics only")
      ∷ []

abbrev verdict : Server → EpReport → List Str
verdict v r =
    if r.ep_confirmed
    then (lit "  expert_parallel_size=" ++ v.show r.sizes.ep ++ lit " confirmed ✅")
      ∷ (lit "  tensor_parallel_size=" ++ v.show r.sizes.tp ++ lit " (TP and EP may be composed)")
      ∷ []
    else (lit "  ep_size was not confirmed; memory distribution is supporting evidence only "
        ++ warning_sign)
      ∷ []

abbrev interpretation : Server → EpReport → List Str
interpretation v r =
    ((10 ∷ bar 60) ∷ (lit "💡 Interpretation:") ∷ verdict v r)
    ++ ([]
        ∷ (lit "  MoE layers use All-to-All dispatch and gather collectives")
        ∷ (lit "  Measure collective cost on the target topology; this script does not isolate it")
        ∷ []
        ∷ (lit "  EP trade-off:")
        ∷ (lit "    ✅ Expert weights are partitioned instead of fully replicated")
        ∷ ((lit "    " ++ warning_sign ++ lit "  Token dispatch introduces communication overhead"))
        ∷ []
        ∷ (lit "  TP, EP, and TP+EP:")
        ∷ (lit "    TP partitions dense tensor operations")
        ∷ (lit "    EP partitions experts and routes tokens between ranks")
        ∷ (lit "    Compose them only when the model architecture and topology justify it")
        ∷ (bar 60)
        ∷ [])

abbrev closing : Host → Str → List Str
closing h hw_tag =
    (lit "\n[log saved → " ++ log_path Demo.ep h.log_dir h.stamp ++ lit "]")
    ∷ (lit "[machine   → " ++ hw_tag ++ lit "]")
    ∷ []

unfoldable pub benchmarks : Host → Bench → Script (Unit {0})
unfolding benchmark_ttft benchmark_throughput
benchmarks h b = do
  call Part.ttft (benchmark_ttft h.codec b.ttft)
  call Part.load (benchmark_throughput h.codec b.load b.wall b.order)
  say []

unfoldable pub main : Host → Gpus → Server → Bench → Script (Unit {0})
unfolding print_hw_info check_gateway check_ep_active ep_check check_alltoall_in_logs benchmarks
main h g v b = do
  say (header h)
  hw_tag ← call Part.hardware (print_hw_info g.names g.topo)
  call Part.gateway (check_gateway h.codec h.health)
  r ← call Part.parallel (check_ep_active h.codec v.args v.files v.sglang_log v.info)
  call Part.memory (ep_check g.before)
  call Part.keywords (check_alltoall_in_logs v.docker_logs)
  say (warning r.ep_confirmed)
  pass_interrupt (benchmarks h b)
  call Part.memory (ep_check g.after)
  say (interpretation v r)
  call Part.logs (save h (time_of Demo.ep h ++ (95 ∷ hw_tag)))
  say (closing h hw_tag)
