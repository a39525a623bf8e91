-- ===== src/Throughput/Counts.antt =====
-- What the summary of a load test counts, and where its percentiles lie.
use radixgates.Base.{ℕ, ◌≡◌, refl, List, [], ◌∷◌, ◌<◌, ◌≤◌}
use radixgates.Base.{arith, ◌↔◌, Bool-cases, inl, inr, ◌+◌, ◌*◌, ◌∙◌, length, length-append, sym}
use radixgates.Base.Int.{ℤ}
use radixgates.Python.{Result, ok, >>=-eq-ok}
use radixgates.Python.Json.{Json, Codec}
use radixgates.Stats.{Frac}
use radixgates.Stats.Rank.{at_most, at_least}
use radixgates.Stats.Quantile.{at_most_frac, at_least_frac, median_rank, p95_rank}
use radixgates.Throughput.{
  Service, Outcome, single, Tally, no_results, add_outcome, collect, Latency, unmeasured, measured,
  Report, latency_of, throughput,
}

-- Of some times the median and the 95th percentile are reported, and no index is out of range: at
-- least half of the times lie on each side of the first, at least 95% at or below the second, and
-- at least 5% at or above it.
pub latency_of_rank :
    (xs : List ℤ)
    → 0 < length xs
    → (m : Frac) × (v : ℤ) × (latency_of xs ≡ ok (measured m v))
      × (length xs ≤ 2 * at_most_frac m xs)
      × (length xs ≤ 2 * at_least_frac m xs)
      × (95 * length xs ≤ 100 * at_most v xs)
      × (5 * length xs ≤ 100 * at_least v xs)
unfolding latency_of
latency_of_rank [] h = absurd (omega arith)
latency_of_rank (x ∷ xs) h =
    let (m, em, mb, ma) = median_rank (x ∷ xs) h in
    let (v, ev, vb, va) = p95_rank (x ∷ xs) h in (m, v, rw em (rw ev), mb, ma, vb, va)

pub latency_of_total : (xs : List ℤ) → (l : Latency) × (latency_of xs ≡ ok l)
latency_of_total [] = (unmeasured, unfold latency_of in refl)
latency_of_total (x ∷ xs) =
    let (m, v, e, _, _, _, _) = latency_of_rank (x ∷ xs) (omega arith) in (measured m v, e)

add_outcome_counts :
    (t : Tally) (o : Outcome)
    → ((add_outcome t o).success + (add_outcome t o).fail ≡ t.success + t.fail + 1)
      × (length (add_outcome t o).latencies + t.success
          ≡ (add_outcome t o).success + length t.latencies)
unfolding add_outcome
add_outcome_counts t o = elim (Bool-cases o.success) [
  | inl e ↦ rw e (omega arith, omega (arith, length-append t.latencies (o.latency ∷ [])))
  | inr e ↦ rw e (omega arith, omega arith)
]

collect_counts :
    (c : Codec) (serve : Service) (payload : ℕ → Json) (order : List ℕ) (t t' : Tally)
    → collect c serve payload order t ≡ ok t'
    → (t'.success + t'.fail ≡ t.success + t.fail + length order)
      × (length t'.latencies + t.success ≡ t'.success + length t.latencies)
unfolding collect
collect_counts c serve payload [] t t' h = ground arith
collect_counts c serve payload (i ∷ order) t t' h =
    let (o, _, h') = >>=-eq-ok (single c serve payload i) _ h in
    omega
      (arith, add_outcome_counts t o, collect_counts c serve payload order (add_outcome t o) t' h')

latency_of-unmeasured :
    (xs : List ℤ) (l : Latency) → latency_of xs ≡ ok l → (l ≡ unmeasured) ↔ (length xs ≡ 0)
unfolding latency_of
latency_of-unmeasured [] l h = (λ _. refl, λ _. ground arith)
latency_of-unmeasured (x ∷ xs) l h =
    let (m, v, e, _, _, _, _) = latency_of_rank (x ∷ xs) (omega arith) in
    let same : ok (measured m v) ≡ ok l = sym e ∙ h in
    (λ u. absurd (ground arith), λ z. absurd (omega arith))

Report_fields :
    (total : ℤ) (t : Tally) (l : Latency) (r : Report)
    → ◌≡◌ {A = Result Report}
        (ok (record { wall = total; success = t.success; fail = t.fail; latency = l }))
        (ok r)
    → (t.success ≡ r.success) × (t.fail ≡ r.fail) × (l ≡ r.latency)
Report_fields total t l r h = ground arith

-- Whenever a load test ends with a report, every request is counted once, as a success or as a
-- failure, and percentiles are reported exactly if there is a success.
pub throughput_counts :
    (c : Codec) (serve : Service) (payload : ℕ → Json) (total : ℤ) (order : List ℕ) (r : Report)
    → throughput c serve payload total order ≡ ok r
    → (r.success + r.fail ≡ length order) × ((r.latency ≡ unmeasured) ↔ (r.success ≡ 0))
unfolding throughput
throughput_counts c serve payload total order r h =
    let (t, ht, h') = >>=-eq-ok (collect c serve payload order no_results) _ h in
    let (l, hl, h'') = >>=-eq-ok (latency_of t.latencies) _ h' in
    let counts = collect_counts c serve payload order no_results t ht in
    let (es, ef, el) = Report_fields total t l r h'' in
    let unmeasured_iff = latency_of-unmeasured t.latencies l hl in
    (
      omega arith,
      (
        λ u. let none_timed : length t.latencies ≡ 0 = unmeasured_iff.0 (el ∙ u) in omega arith,
        λ z. sym el ∙ unmeasured_iff.1 (omega arith),
      ),
    )

wall_of :
    (total : ℤ) (t : Tally) (l : Latency) (r : Report)
    → ◌≡◌ {A = Result Report}
        (ok (record { wall = total; success = t.success; fail = t.fail; latency = l }))
        (ok r)
    → r.wall ≡ total
wall_of total t l r h = ground arith

pub throughput_wall :
    (c : Codec) (serve : Service) (payload : ℕ → Json) (total : ℤ) (order : List ℕ) (r : Report)
    → throughput c serve payload total order ≡ ok r
    → r.wall ≡ total
unfolding throughput
throughput_wall c serve payload total order r h =
    let (t, ht, h') = >>=-eq-ok (collect c serve payload order no_results) _ h in
    let (l, hl, h'') = >>=-eq-ok (latency_of t.latencies) _ h' in wall_of total t l r h''
