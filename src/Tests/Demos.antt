-- ===== src/Tests/Demos.antt =====
-- Users and requests of the demos, and gateways in direct mode.
use radixgates.Base.{◌≡◌, refl, [], ◌∷◌, lit, ◌↔◌, ◌⊎◌, some}
use radixgates.Base.Int.{pos, ◌*ℤ◌, ◌-ℤ◌}
use radixgates.Python.{ok, raise, exit}
use radixgates.Throughput
use radixgates.Throughput.{Reply, reply, lost, Exchange, Service, Report, measured}
use radixgates.Demos.Gateway.{check_direct}
use radixgates.Demos.Gateway.Laws.{SaysDirect, check_direct_iff}
use radixgates.Demos.Qa.{count_results}
use radixgates.Demos.Dp.{Scaling, benchmark_throughput}
use radixgates.Tests.Samples.{codec}

check_direct_iff_example :
    ((check_direct codec (reply 500 (lit "{direct}")) ≡ ok tt)
      ↔ SaysDirect codec (reply 500 (lit "{direct}")))
    × ((check_direct codec (reply 500 (lit "{direct}")) ≡ ok tt)
        ⊎ (check_direct codec (reply 500 (lit "{direct}")) ≡ raise exit))
check_direct_iff_example = check_direct_iff codec (reply 500 (lit "{direct}")) tt

-- every request is answered after 0.2 s
abbrev answers : Service
answers i body = record { sent = pos 0; received = pos 200000; result = reply 200 (lit "{full}") }

two_counted : count_results codec answers (1 ∷ 0 ∷ []) 0 0 ≡ ok (2, 0)
unfolding count_results
two_counted = refl

abbrev report : Report
report = record {
  wall = pos 200000;
  success = 1;
  fail = 0;
  latency = measured (record { num = pos 200000; den = 1 }) (pos 200000);
}

abbrev estimate : Scaling
estimate = record { sequential = pos 800000; ratio_num = pos 800000; ratio_den = pos 200000 }

estimated : benchmark_throughput codec answers (pos 200000) (0 ∷ []) ≡ ok (report, some estimate)
unfolding benchmark_throughput Throughput.throughput ◌-ℤ◌ ◌*ℤ◌
estimated = refl
