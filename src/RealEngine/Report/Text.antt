-- ===== src/RealEngine/Report/Text.antt =====
-- The text that `main` of benchmarks/real_engine/run_real.py writes to summary.md.
use radixgates.Base.{
  ℕ, suc, ◌*◌, ◌/◌, List, [], ◌∷◌, ◌++◌, map, length, get_elem?, Option, none, some, Str, lit,
}
use radixgates.Base.Int.{ℤ, pos, negsuc}
use radixgates.Base.Decimal.{show_ℕ}
use radixgates.Python.{Result, ok, ◌>>=◌, or_raise, index_error}
use radixgates.RealEngine.Summary.{Summary}
use radixgates.RealEngine.Workload.{join}
use radixgates.RealEngine.Report.{Measured, Results}

-- `statistics.median` of a column of floats, as the report formats it: of `cache_hit`, of the two
-- percentiles of the prefill time and the two of the latency, and of `rps`.
pub record Medians : Type 0 where
  pub cache_hit : List Summary → Result Str
  pub prefill_p50 : List Summary → Result Str
  pub prefill_p95 : List Summary → Result Str
  pub lat_p50 : List Summary → Result Str
  pub lat_p95 : List Summary → Result Str
  pub rps : List Summary → Result Str

abbrev pub show_ℤ : ℤ → Str
show_ℤ (pos n) = show_ℕ n
show_ℤ (negsuc n) = lit "-" ++ show_ℕ (suc n)

-- `runs[len(runs) // 2]['share']`
unfoldable pub middle_share : List Measured → Result (List ℤ)
middle_share runs = or_raise (get_elem? runs (length runs / 2)) index_error >>= λ s. ok s.share

-- the line of a policy
unfoldable pub policy_line : Medians → Str → List Measured → Result Str
unfolding middle_share
policy_line m policy runs =
    let column = map (λ (s : Measured). s.summary) runs in
    do
      hit ← m.cache_hit column
      prefill_p50 ← m.prefill_p50 column
      prefill_p95 ← m.prefill_p95 column
      lat_p50 ← m.lat_p50 column
      lat_p95 ← m.lat_p95 column
      rps ← m.rps column
      share ← middle_share runs
      ok (
          lit "| "
          ++ join (lit " | ") (
              policy
              ∷ hit
              ∷ (prefill_p50 ++ lit " / " ++ prefill_p95)
              ∷ (lat_p50 ++ lit " / " ++ lat_p95)
              ∷ rps
              ∷ join (lit " / ") (map show_ℤ share)
              ∷ [])
          ++ lit " |")

unfoldable pub policy_lines : Medians → Results → Result (List Str)
unfolding policy_line
policy_lines m [] = ok []
policy_lines m ((policy, runs) ∷ d) = do
  line ← policy_line m policy runs
  lines ← policy_lines m d
  ok (line ∷ lines)

-- the lines of the table, with its heading
unfoldable pub table_lines : Medians → Results → Result (List Str)
unfolding policy_lines
table_lines m d = policy_lines m d >>= λ lines. ok (
    lit
      "| policy | cache hit (prompt tokens from KV cache) | prefill p50 / p95 (ms) | latency p50 / p95 (ms) | req/s | prompt tokens evaluated per worker |"
    ∷ lit "| --- | ---: | ---: | ---: | ---: | --- |"
    ∷ lines)

-- the command line, as far as the report names it
pub record Setting : Type 0 where
  pub workers : ℕ
  pub slots : ℕ
  pub cache_ram : Option ℤ
  pub prompts : ℕ
  pub per_prompt : ℕ
  pub concurrency : ℕ
  pub repeats : ℕ

abbrev pub cache_text : Option ℤ → Str
cache_text none = lit "default (8192 MiB)"
cache_text (some n) = show_ℤ n ++ lit " MiB"

-- what `main` writes to summary.md; 10 is the code point of "\n"
unfoldable pub summary_text : Medians → Setting → Results → Result Str
unfolding table_lines
summary_text m args d = table_lines m d >>= λ lines. ok (
    show_ℕ args.workers
    ++ lit " llama-server workers ("
    ++ show_ℕ args.slots
    ++ lit " slots each, host-memory prompt cache "
    ++ cache_text args.cache_ram
    ++ lit "), "
    ++ show_ℕ args.prompts
    ++ lit " distinct system prompts, "
    ++ show_ℕ (args.prompts * args.per_prompt)
    ++ lit " requests per run, concurrency "
    ++ show_ℕ args.concurrency
    ++ lit ", median of "
    ++ show_ℕ args.repeats
    ++ lit " runs."
    ++ (10 ∷ 10 ∷ join (10 ∷ []) lines)
    ++ (10 ∷ []))
