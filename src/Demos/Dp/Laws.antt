-- ===== src/Demos/Dp/Laws.antt =====
-- The bodies of the forty requests, and what the scaling estimate of a run is worth.
use radixgates.Base.{
  ℕ, ◌≡◌, ◌%◌, ◌+◌, List, get_elem?, get_elem?-All, Option, some, arith, ap, ◌∙◌, String,
}
use radixgates.Base.Int.{ℤ, pos, ◌*ℤ◌, ◌≤ℤ◌}
use radixgates.Python.{Result, ok, >>=-eq-ok}
use radixgates.Python.Json.{Json, Codec, nil}
use radixgates.Throughput
use radixgates.Throughput.Counts.{throughput_wall}
use radixgates.Throughput.{Service, Report, measured, unmeasured}
use radixgates.Demos.Dp.{
  system_prompts, payload_of, payload, Scaling, scaling_of, benchmark_throughput,
}

abbrev body : String → Json
body p = Throughput.chat_payload (
    Throughput.message "system" p
      (Throughput.message "user" "Explain GPU parallelism in 2 sentences." nil))

payload_at :
    (i : ℕ) (s : String) → get_elem? system_prompts (i % 4) ≡ some s → payload_of i ≡ some (body s)
unfolding payload_of
payload_at i s e = rw (e, payload_of)

-- Every request has a body, so no index is out of range, and the prompts come round every four
-- requests.
payload_of_cycles : (i : ℕ) → (p : Json) × (payload_of i ≡ some p) × (payload_of (i + 4) ≡ some p)
payload_of_cycles i =
    let (s, e, _) =
      get_elem?-All (λ _. Unit {0}) system_prompts (i % 4) (omega arith) (omega arith) in
    let same : (i + 4) % 4 ≡ i % 4 = omega arith in
    (body s, payload_at i s e, payload_at (i + 4) s (ap (get_elem? system_prompts) same ∙ e))

scaling-ratio :
    (r : Report) (s : Scaling)
    → pos 100000 ≤ℤ r.wall
    → scaling_of r ≡ some s
    → s.ratio_num ≡ 4 *ℤ s.ratio_den
unfolding scaling_of
scaling-ratio r s long h = ground arith

pair_parts :
    (r r' : Report) (o : Option Scaling) (s : Scaling)
    → ◌≡◌ {A = Result (Report × Option Scaling)} (ok (r', o)) (ok (r, some s))
    → (r' ≡ r) × (o ≡ some s)
pair_parts r r' o s h = ground arith

-- The estimated ratio is exactly 4 for every run of at least a tenth of a second for which an
-- estimate is printed.
benchmark_throughput-ratio :
    (c : Codec) (serve : Service) (total : ℤ) (order : List ℕ) (r : Report) (s : Scaling)
    → benchmark_throughput c serve total order ≡ ok (r, some s)
    → pos 100000 ≤ℤ total
    → s.ratio_num ≡ 4 *ℤ s.ratio_den
unfolding benchmark_throughput
benchmark_throughput-ratio c serve total order r s h long =
    let (r', h', e) = >>=-eq-ok (Throughput.throughput c serve payload total order) _ h in
    let (_, estimated) = pair_parts r r' (scaling_of r') s e in
    let wall = throughput_wall c serve payload total order r' h' in
    scaling-ratio r' s (rw wall long) estimated
