-- ===== src/RealEngine/Report/Complete.antt =====
-- What a measurement that comes to its end has done.
use radixgates.Base.{
  ℕ, zero, suc, ◌+◌, ◌<◌, ◌≡◌, sym, ◌∙◌, ap, List, [], ◌∷◌, length, length-map, length-range_from,
  range_from, none, Str, arith, lit, ◌++◌, some, get_elem?, map, keep,
}
use radixgates.Base.Int.{ℤ, ◌-ℤ◌}
use radixgates.Python.{ok_injective, Result, ok, >>=-eq-ok}
use radixgates.Python.Json.{Codec}
use radixgates.RealEngine.{
  Args, Servers, Sent, Row, run_from, run_policy, one, next_counter, worker_base_port,
}
use radixgates.RealEngine.Share.{run_policy-run_from}
use radixgates.Base.Decimal.{show_ℕ}
use radixgates.RealEngine.Summary.{Summary, summarize, total, prompt_tokens, cached_tokens, is_ok}
use radixgates.RealEngine.Config.{Options, gateway_port, erase_caches}
use radixgates.RealEngine.Config.Laws.{erase_caches_iff}
use radixgates.RealEngine.Counters.{Floats, counter_in, counters_of, prefill_counters, worker_share}
use radixgates.RealEngine.Report.{Site, Measured, run_args, measure_run}

length-counters_of :
    (floats : Floats) (metrics : ℕ → Result Str) (is : List ℕ) (l : List ℤ)
    → counters_of floats metrics is ≡ ok l
    → length l ≡ length is
unfolding counters_of
length-counters_of floats metrics [] l e = ap length (sym (ok_injective e))
length-counters_of floats metrics (i ∷ is) l e =
    let (t, e₁, r₁) = >>=-eq-ok (metrics (worker_base_port + i)) _ e in
    let (n, e₂, r₂) = >>=-eq-ok (counter_in floats t) _ r₁ in
    let (rest, e₃, r₃) = >>=-eq-ok (counters_of floats metrics is) _ r₂ in
    ap length (sym (ok_injective r₃)) ∙ ap suc (length-counters_of floats metrics is rest e₃)

-- What the counter of a worker comes to.
abbrev pub Counts : Floats → (ℕ → Result Str) → ℕ → ℤ → Type 0
Counts floats metrics i x =
    (text : Str) × (metrics (worker_base_port + i) ≡ ok text) × (counter_in floats text ≡ ok x)

Counts-same :
    (floats : Floats) (metrics : ℕ → Result Str) (i j : ℕ) (x : ℤ)
    → i ≡ j
    → Counts floats metrics i x
    → Counts floats metrics j x
Counts-same floats metrics i j x e c = rw (sym e) c

counters_of-Counts :
    (floats : Floats) (metrics : ℕ → Result Str) (n k i : ℕ) (l : List ℤ)
    → counters_of floats metrics (range_from n k) ≡ ok l
    → i < n
    → (x : ℤ) × (get_elem? l i ≡ some x) × Counts floats metrics (k + i) x
unfolding counters_of
counters_of-Counts floats metrics zero k i l e h = absurd (omega (arith, h))
counters_of-Counts floats metrics (suc n) k zero l e h =
    let (t, e₁, r₁) = >>=-eq-ok (metrics (worker_base_port + k)) _ e in
    let (x, e₂, r₂) = >>=-eq-ok (counter_in floats t) _ r₁ in
    let (rest, e₃, r₃) = >>=-eq-ok (counters_of floats metrics (range_from n (suc k))) _ r₂ in
    (
      x,
      ap (λ m. get_elem? m 0) (sym (ok_injective r₃)),
      Counts-same floats metrics k (k + 0) x (omega arith) (t, e₁, e₂),
    )
counters_of-Counts floats metrics (suc n) k (suc i) l e h =
    let (t, e₁, r₁) = >>=-eq-ok (metrics (worker_base_port + k)) _ e in
    let (x, e₂, r₂) = >>=-eq-ok (counter_in floats t) _ r₁ in
    let (rest, e₃, r₃) = >>=-eq-ok (counters_of floats metrics (range_from n (suc k))) _ r₂ in
    let (y, ey, cy) = counters_of-Counts floats metrics n (suc k) i rest e₃ (omega (arith, h)) in
    (
      y,
      ap (λ m. get_elem? m (suc i)) (sym (ok_injective r₃)) ∙ ey,
      Counts-same floats metrics (suc k + i) (k + suc i) y (omega arith) cy,
    )

worker_share-item :
    (before after : List ℤ) (i : ℕ) (x y : ℤ)
    → get_elem? before i ≡ some x
    → get_elem? after i ≡ some y
    → get_elem? (worker_share before after) i ≡ some (y -ℤ x)
unfolding worker_share
worker_share-item [] after i x y e f = absurd (cc)
worker_share-item (b ∷ before) [] i x y e f = absurd (cc)
worker_share-item (b ∷ before) (a ∷ after) zero x y e f = cc
worker_share-item (b ∷ before) (a ∷ after) (suc i) x y e f =
    worker_share-item before after i x y e f

length-worker_share :
    (before after : List ℤ) (n : ℕ)
    → length before ≡ n
    → length after ≡ n
    → length (worker_share before after) ≡ n
unfolding worker_share
length-worker_share [] after n h g = h
length-worker_share (b ∷ before) [] n h g = g
length-worker_share (b ∷ before) (a ∷ after) zero h g = absurd (omega (arith, h))
length-worker_share (b ∷ before) (a ∷ after) (suc n) h g =
    ap suc (length-worker_share before after n (omega (arith, h)) (omega (arith, g)))

length-prefill_counters :
    (floats : Floats) (metrics : ℕ → Result Str) (workers : ℕ) (l : List ℤ)
    → prefill_counters floats metrics workers ≡ ok l
    → length l ≡ workers
unfolding prefill_counters
length-prefill_counters floats metrics workers l e =
    length-counters_of floats metrics (range_from workers 0) l e ∙ length-range_from workers 0

module _ (c : Codec) (policy : Str) (args : Args) (prompts : List Str) (port : ℕ)
    (serve : Servers) where
  length-run_from :
      (i n : ℕ) (reqs : List (ℕ × Str)) (l : List Sent)
      → run_from c policy args prompts port serve i n reqs ≡ ok l
      → length l ≡ length reqs
  unfolding run_from
  length-run_from i n [] l e = ap length (sym (ok_injective e))
  length-run_from i n (item ∷ reqs) l e =
      let (s, e₁, r₁) = >>=-eq-ok (one c policy args prompts port serve i n item) _ e in
      let (rest, e₂, r₂) =
        >>=-eq-ok (run_from c policy args prompts port serve (suc i) (next_counter policy n) reqs) _
          r₁ in
      ap length (sym (ok_injective r₂))
      ∙ ap suc (length-run_from (suc i) (next_counter policy n) reqs rest e₂)

requests-summarize :
    (rows : List Row) (s : Summary) → summarize rows ≡ ok s → s.requests ≡ length rows
unfolding summarize
requests-summarize rows s e =
    let (p, e₁, r₁) = >>=-eq-ok (total (map prompt_tokens (keep is_ok rows))) _ e in
    let (h, e₂, r₂) = >>=-eq-ok (total (map cached_tokens (keep is_ok rows))) _ r₁ in
    ap (λ (y : Summary). y.requests) (sym (ok_injective r₂))

-- A measurement that comes to its end has made the request that erases each slot of each worker,
-- each without an exception; it has a row for each request, and its summary is that of the rows, with
-- each of them counted; and it has, for each worker, the difference between the counters in the
-- metrics that the worker showed after the requests and before them.
pub measure_run_complete :
    (b : Site) (args : Options) (max_tokens : ℕ) (policy : Str) (prompts : List Str)
    (reqs : List (ℕ × Str)) (s : Measured) (rows : List Row)
    → measure_run b args max_tokens policy prompts reqs ≡ ok (s, rows)
    → ((i slot : ℕ)
        → i < args.workers
        → slot < args.slots
        → b.post (worker_base_port + i) (lit "/slots/" ++ show_ℕ slot ++ lit "?action=erase") none
          ≡ ok tt)
      × (length rows ≡ length reqs)
      × (summarize rows ≡ ok s.summary)
      × (s.summary.requests ≡ length reqs)
      × (length s.share ≡ args.workers)
      × ((i : ℕ)
          → i < args.workers
          → (x y : ℤ) × Counts b.floats b.before i x
            × Counts b.floats b.after i y
            × (get_elem? s.share i ≡ some (y -ℤ x)))
unfolding measure_run prefill_counters
measure_run_complete b args max_tokens policy prompts reqs s rows e =
    let small = run_args args max_tokens in
    let run = run_policy b.codec policy small prompts gateway_port b.serve reqs in
    let (t, erased, r₁) = >>=-eq-ok (erase_caches args b.post) _ e in
    let (before, e₂, r₂) = >>=-eq-ok (prefill_counters b.floats b.before args.workers) _ r₁ in
    let (sent, e₃, r₃) = >>=-eq-ok run _ r₂ in
    let (after, e₄, r₄) = >>=-eq-ok (prefill_counters b.floats b.after args.workers) _ r₃ in
    let (summary, e₅, r₅) = >>=-eq-ok (summarize (map (λ (x : Sent). x.row) sent)) _ r₄ in
    let pair = ok_injective r₅ in
    let its_rows : map (λ (x : Sent). x.row) sent ≡ rows =
      ap (λ (q : Measured × List Row). q.1) pair in
    let its_share : worker_share before after ≡ s.share =
      ap (λ (q : Measured × List Row). q.0.share) pair in
    let one_each : length rows ≡ length reqs =
      ap length (sym its_rows)
      ∙ length-map (λ (x : Sent). x.row) sent
      ∙ length-run_from b.codec policy small prompts gateway_port b.serve 0 0 reqs sent
          (run_policy-run_from b.codec policy small prompts gateway_port b.serve reqs sent e₃) in
    let summed : summarize rows ≡ ok s.summary =
      ap summarize (sym its_rows) ∙ e₅ ∙ ap (λ (q : Measured × List Row). ok q.0.summary) pair in
    (
      (erase_caches_iff args b.post).0 erased,
      one_each,
      summed,
      requests-summarize rows s.summary summed ∙ one_each,
      ap length (sym its_share)
          ∙ length-worker_share before after args.workers
              (length-prefill_counters b.floats b.before args.workers before e₂)
              (length-prefill_counters b.floats b.after args.workers after e₄),
      λ i h.
          let (x, ex, cx) = counters_of-Counts b.floats b.before args.workers 0 i before e₂ h in
          let (y, ey, cy) = counters_of-Counts b.floats b.after args.workers 0 i after e₄ h in
          (
            x,
            y,
            Counts-same b.floats b.before (0 + i) i x (omega arith) cx,
            Counts-same b.floats b.after (0 + i) i y (omega arith) cy,
            ap (λ l. get_elem? l i) (sym its_share) ∙ worker_share-item before after i x y ex ey,
          ),
    )
