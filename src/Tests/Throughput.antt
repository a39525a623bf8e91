-- ===== src/Tests/Throughput.antt =====
-- A load test of three requests, one of which is lost, and of the checks made on its summary.
use mathlib.Core.List.Perm
use radixgates.Base.{
  ℕ, zero, suc, ◌≡◌, refl, [], ◌∷◌, lit, arith, count_if, not, ◌≤◌, ◌*◌, ◌+◌, ◌↔◌,
}
use radixgates.Base.Int.{ℤ, pos, ◌-ℤ◌, ◌+ℤ◌}
use radixgates.Python.{ok, os_error}
use radixgates.Python.Json.{Json, null}
use radixgates.Stats.{Frac}
use radixgates.Stats.Rank.{at_most, at_least}
use radixgates.Stats.Quantile.{at_most_frac, at_least_frac}
use radixgates.Throughput.{
  lost, reply, Exchange, Service, Latency, measured, unmeasured, Report, latency_of, throughput,
}
use radixgates.Throughput.Laws.{IsCalm, exchange, answered, answer_times}
use radixgates.Throughput.Counts.{throughput_counts, latency_of_rank}
use radixgates.Throughput.Order.{throughput_perm}
use radixgates.Tests.Samples.{codec}

-- The second request is lost; the others take 30 and 20.
abbrev sample_exchange : ℕ → Exchange
sample_exchange zero = record { sent = pos 0; received = pos 30; result = reply 200 (lit "{full}") }
sample_exchange (suc zero) = record { sent = pos 0; received = pos 5; result = lost os_error }
sample_exchange (suc (suc n)) = record {
  sent = pos 2;
  received = pos 22;
  result = reply 200 (lit "{full}");
}

abbrev serve : Service
serve i body = sample_exchange i

abbrev no_body : ℕ → Json
no_body i = null

calm : (i : ℕ) → IsCalm (exchange codec serve no_body i).result
calm zero = tt
calm (suc zero) = refl
calm (suc (suc i)) = tt

throughput_perm_example :
    (l : Latency) × (latency_of (answer_times codec serve no_body (0 ∷ 1 ∷ 2 ∷ [])) ≡ ok l)
    × (throughput codec serve no_body (pos 40) (0 ∷ 1 ∷ 2 ∷ [])
        ≡ ok (record {
          wall = pos 40;
          success = count_if (answered codec serve no_body) (0 ∷ 1 ∷ 2 ∷ []);
          fail = count_if (λ i. not (answered codec serve no_body i)) (0 ∷ 1 ∷ 2 ∷ []);
          latency = l;
        }))
    × (throughput codec serve no_body (pos 40) (1 ∷ 0 ∷ 2 ∷ [])
        ≡ throughput codec serve no_body (pos 40) (0 ∷ 1 ∷ 2 ∷ []))
throughput_perm_example =
    throughput_perm codec serve no_body (pos 40) (0 ∷ 1 ∷ 2 ∷ []) (1 ∷ 0 ∷ 2 ∷ []) calm
      (Perm.swap 1 0 (2 ∷ []))

abbrev report : Report
report = record {
  wall = pos 40;
  success = 2;
  fail = 1;
  latency = measured (record { num = pos 50; den = 2 }) (pos 30);
}

throughput-report : throughput codec serve no_body (pos 40) (0 ∷ 1 ∷ 2 ∷ []) ≡ ok report
unfolding throughput ◌-ℤ◌ ◌+ℤ◌
throughput-report = refl

throughput_counts_example :
    (report.success + report.fail ≡ 3) × ((report.latency ≡ unmeasured) ↔ (report.success ≡ 0))
throughput_counts_example =
    throughput_counts codec serve no_body (pos 40) (0 ∷ 1 ∷ 2 ∷ []) report throughput-report

latency_of_rank_example :
    (m : Frac) × (v : ℤ) × (latency_of (pos 30 ∷ pos 20 ∷ []) ≡ ok (measured m v))
    × (2 ≤ 2 * at_most_frac m (pos 30 ∷ pos 20 ∷ []))
    × (2 ≤ 2 * at_least_frac m (pos 30 ∷ pos 20 ∷ []))
    × (95 * 2 ≤ 100 * at_most v (pos 30 ∷ pos 20 ∷ []))
    × (5 * 2 ≤ 100 * at_least v (pos 30 ∷ pos 20 ∷ []))
latency_of_rank_example = latency_of_rank (pos 30 ∷ pos 20 ∷ []) (omega arith)
