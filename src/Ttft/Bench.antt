-- ===== src/Ttft/Bench.antt =====
-- `benchmark_ttft` as a whole: what it records for each prompt.
use radixgates.Base.{ℕ, zero, suc, ◌≡◌, refl, Bool, true, false, List, [], ◌∷◌, Option, none, some}
use radixgates.Base.{Str, str_eq, if◌then◌else◌, ◌++◌}
use radixgates.Base.{
  sym, ap, ap₂, All-get_elem?, arith, Option-cases, inl, inr, ◌+◌, ◌*◌, append-nil, append_assoc,
  ◌∙◌, keep, map, range_from, get_elem?, All,
}
use radixgates.Base.Int.{ℤ, pos, ltb_ℤ}
use radixgates.Base.Dict.{Dict, lookup, lookup-insert, str_eq_refl, str_eq_comm}
use radixgates.Python.{ok}
use radixgates.Python.Json.{Codec}
use native.Mathlib.Nat.{add-zero}
use radixgates.Stats.{Frac, median}
use radixgates.Ttft.{
  measure_ttft, Service, ttft_payload, time_rounds, record_median, bench_prompts, benchmark_ttft,
}

-- What the n-th request of a run measures, where nothing interrupts the run.
abbrev pub Measures : Codec → Service → (ℕ → Str → ℤ) → Type 0
Measures c serve time =
    (n : ℕ) (prompt : Str)
    → measure_ttft c (serve n (ttft_payload prompt)).0 (serve n (ttft_payload prompt)).1
      ≡ ok (time n prompt)

-- The times above 0 among the measurements of `rounds` requests from the n-th on.
unfoldable pub kept : (ℕ → Str → ℤ) → Str → ℕ → ℕ → List ℤ
kept time prompt rounds n = keep (ltb_ℤ (pos 0)) (map (λ i. time i prompt) (range_from rounds n))

append_if :
    (b : Bool) (t : ℤ) (times rest : List ℤ)
    → (if b then times ++ (t ∷ []) else times) ++ rest ≡ times ++ (if b then t ∷ rest else rest)
append_if true t times rest = append_assoc times (t ∷ []) rest
append_if false t times rest = refl

-- The results, from those at hand, for the prompts whose requests begin with the n-th.
expected : (ℕ → Str → ℤ) → List (Str × Str) → ℕ → Dict Frac → Dict Frac
expected time [] n results = results
expected time ((name, prompt) ∷ prompts) n results =
    expected time prompts (5 + n) (record_median name (kept time prompt 5 n) results)

module _ (c : Codec) (serve : Service) (time : ℕ → Str → ℤ) (measures : Measures c serve time) where
  time_rounds-kept :
      (prompt : Str) (rounds n : ℕ) (times : List ℤ)
      → time_rounds c serve prompt rounds n times
        ≡ ok (times ++ kept time prompt rounds n, rounds + n)
  unfolding time_rounds kept
  time_rounds-kept prompt zero n times =
      ap₂ (λ a b. ok (a, b)) (sym (append-nil times)) (omega arith)
  time_rounds-kept prompt (suc rounds) n times = rw (measures n prompt) (
      time_rounds-kept prompt rounds (suc n) _
      ∙ ap₂ (λ a b. ok (a, b)) (append_if _ (time n prompt) times _) (omega arith))

  bench_prompts-expected :
      (prompts : List (Str × Str)) (n : ℕ) (results : Dict Frac)
      → bench_prompts c serve prompts n results ≡ ok (expected time prompts n results)
  unfolding bench_prompts expected
  bench_prompts-expected [] n results = refl
  bench_prompts-expected ((name, prompt) ∷ prompts) n results =
      rw (time_rounds-kept prompt 5 n []) (bench_prompts-expected prompts (5 + n) _)

  pub benchmark_ttft_total :
      (prompts : List (Str × Str))
      → (results : Dict Frac) × (benchmark_ttft c serve prompts ≡ ok results)
  unfolding benchmark_ttft
  benchmark_ttft_total prompts = (expected time prompts 0 [], bench_prompts-expected prompts 0 [])

abbrev pub Absent : Str → List (Str × Str) → Type 0
Absent name = All (λ (q : Str × Str). str_eq name q.0 ≡ false)

-- No name is listed twice, as in a dict.
abbrev pub Distinct : List (Str × Str) → Type 0
Distinct [] = Unit
Distinct (p ∷ prompts) = Absent p.0 prompts × Distinct prompts

head_parts :
    (j p name prompt : Str)
    → ◌≡◌ {A = Option (Str × Str)} (some (j, p)) (some (name, prompt))
    → (j ≡ name) × (p ≡ prompt)
head_parts j p name prompt e = ground arith

lookup-record_median_self :
    (name : Str) (times : List ℤ) (results : Dict Frac)
    → lookup name results ≡ none
    → lookup name (record_median name times results) ≡ median times
unfolding record_median
lookup-record_median_self name times results fresh = elim (Option-cases (median times)) [
  | inl e ↦ rw (e, record_median) fresh
  | inr (m, e) ↦ rw (e, record_median) (rw (lookup-insert, str_eq_refl name))
]

lookup-record_median_ne :
    (j name : Str) (times : List ℤ) (results : Dict Frac)
    → str_eq j name ≡ false
    → lookup j (record_median name times results) ≡ lookup j results
unfolding record_median
lookup-record_median_ne j name times results ne = elim (Option-cases (median times)) [
  | inl e ↦ rw (e, record_median)
  | inr (m, e) ↦ rw (e, record_median) (rw (lookup-insert, ne))
]

module _ (time : ℕ → Str → ℤ) where
  lookup-expected-Absent :
      (j : Str) (prompts : List (Str × Str)) (n : ℕ) (results : Dict Frac)
      → Absent j prompts
      → lookup j (expected time prompts n results) ≡ lookup j results
  unfolding expected
  lookup-expected-Absent j [] n results a = refl
  lookup-expected-Absent j ((name, prompt) ∷ prompts) n results a =
      lookup-expected-Absent j prompts (5 + n) _ a.1 ∙ lookup-record_median_ne j name _ results a.0

  lookup-expected :
      (prompts : List (Str × Str)) (i n : ℕ) (results : Dict Frac) (name prompt : Str)
      → Distinct prompts
      → lookup name results ≡ none
      → get_elem? prompts i ≡ some (name, prompt)
      → lookup name (expected time prompts n results) ≡ median (kept time prompt 5 (n + 5 * i))
  unfolding expected
  lookup-expected [] i n results name prompt d fresh e = absurd (cc)
  lookup-expected ((j, p) ∷ prompts) zero n results name prompt d fresh e =
      let same : (j ≡ name) × (p ≡ prompt) = head_parts j p name prompt e in
      lookup-expected-Absent name prompts (5 + n) _ (rw same.0 at d.0)
      ∙ rw (same.0, same.1, add-zero) (lookup-record_median_self name _ results fresh)
  lookup-expected ((j, p) ∷ prompts) (suc i) n results name prompt d fresh e =
      let ne : str_eq name j ≡ false =
        str_eq_comm name j
        ∙ All-get_elem? (λ (q : Str × Str). str_eq j q.0 ≡ false) prompts i (name, prompt) d.0 e in
      lookup-expected prompts i (5 + n) _ name prompt d.1
        (lookup-record_median_ne name j _ results ne ∙ fresh) e
      ∙ ap (λ m. median (kept time prompt 5 m)) (omega arith)

-- If no request of the run is interrupted, the run ends with results in which each prompt's name
-- has the median of those of its five measurements that are above 0, and no entry if none is.
pub benchmark_ttft-lookup :
    (c : Codec) (serve : Service) (time : ℕ → Str → ℤ) (prompts : List (Str × Str)) (i : ℕ)
    (name prompt : Str)
    → Measures c serve time
    → Distinct prompts
    → get_elem? prompts i ≡ some (name, prompt)
    → (results : Dict Frac) × (benchmark_ttft c serve prompts ≡ ok results)
      × (lookup name results ≡ median (kept time prompt 5 (5 * i)))
unfolding benchmark_ttft
benchmark_ttft-lookup c serve time prompts i name prompt measures d e = (
  expected time prompts 0 [],
  bench_prompts-expected c serve time measures prompts 0 [],
  lookup-expected time prompts i 0 [] name prompt d refl e
      ∙ ap (λ m. median (kept time prompt 5 m)) (omega arith),
)
