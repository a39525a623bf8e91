-- ===== src/LongContext/Laws.antt =====
-- What the summary has an entry for, and that no ratio in it has a denominator of 0.
use radixgates.Base.{
  ◌<◌, List, [], ◌∷◌, Str, Option, none, some, Bool, true, false, ◌≡◌, refl, keep, map, All, arith,
  Bool-cases, inl, inr,
}
use radixgates.Base.Int.{ℤ, pos, ltb_ℤ, ◌<ℤ◌}
use radixgates.Python.{ok_injective, Result, ok, >>=-eq-ok}
use radixgates.Python.Json.{Json, Codec}
use radixgates.Stats.{Frac}
use radixgates.LongContext.{
  Session, Entry, Ratio, no_ratio, chat_stream_ttft, chat_non_stream_for_tokens, warm_times,
  average, speedup, operand, rate_of, hit_rate, compare, entry_of, measure, with_entry, run,
}

-- Whether the cold request ended without an exception.
abbrev pub has_time : Result (Option ℤ) → Bool
has_time (ok (some t)) = true
has_time _ = false

abbrev pub is_answered : Str × Session → Bool
is_answered (size, s) = has_time (chat_stream_ttft s.cold.0 s.cold.1)

-- Every denominator in the entry is above 0.
abbrev pub IsDivided : Entry → Type 0
IsDivided e = (0 < e.warm_ttft.den) × (pos 0 <ℤ e.faster.den) × (pos 0 <ℤ e.hits.den)

average-den : (xs : List ℤ) → 0 < (average xs).den
average-den [] = omega arith
average-den (x ∷ xs) = omega arith

speedup-den : (cold : ℤ) (avg : Frac) → pos 0 <ℤ (speedup cold avg).den
speedup-den cold avg = elim (Bool-cases (ltb_ℤ (pos 0) avg.num)) [
  | inl e ↦ rw e (ground arith)
  | inr e ↦ rw e (omega arith)
]

rate_of-den : (cached : Json) (n : ℤ × ℤ) (r : Ratio) → rate_of cached n ≡ ok r → pos 0 <ℤ r.den
rate_of-den cached (m, e) r h = elim (Bool-cases (ltb_ℤ (pos 0) m)) [
  | inl t ↦
      let (c, _, q) = >>=-eq-ok (operand cached) _ (rw t at h) in
      rw (← (ok_injective q)) (ground arith)
  | inr t ↦ rw (← (ok_injective {a = no_ratio} (rw t at h))) (omega arith)
]

compare-lem :
    (c : Codec) (size : Str) (s : Session) (cold : ℤ) (e : Entry)
    → compare c size s cold ≡ ok e
    → IsDivided e × (e.size ≡ size)
unfolding compare
compare-lem c size s cold e h =
    let (times, _, h1) = >>=-eq-ok (warm_times s.warm) _ h in
    let ((cached, n), _, h2) = >>=-eq-ok (chat_non_stream_for_tokens c s.tokens) _ h1 in
    let (hits, q, h3) = >>=-eq-ok (hit_rate cached n) _ h2 in
    let (m, _, q2) = >>=-eq-ok (operand n) _ q in
    rw (← (ok_injective h3))
      ((average-den times, speedup-den cold (average times), rate_of-den cached m hits q2), refl)

-- What the summary of some contexts satisfies.
abbrev IsSummary : List Entry → List (Str × Session) → Type 0
IsSummary entries contexts =
    All IsDivided entries × (map (λ e. e.size) entries ≡ map (λ x. x.0) (keep is_answered contexts))

entry_of-IsSummary :
    (c : Codec) (size : Str) (s : Session) (o : Option ℤ) (m : Option Entry) (entries : List Entry)
    (contexts : List (Str × Session))
    → chat_stream_ttft s.cold.0 s.cold.1 ≡ ok o
    → entry_of c size s o ≡ ok m
    → IsSummary entries contexts
    → IsSummary (with_entry m entries) ((size, s) ∷ contexts)
unfolding entry_of
entry_of-IsSummary c size s none m entries contexts q h t = rw (← (ok_injective h), q) t
entry_of-IsSummary c size s (some cold) m entries contexts q h (divided, sizes) =
    let (e, q1, q2) = >>=-eq-ok (compare c size s cold) _ h in
    let (d, same) = compare-lem c size s cold e q1 in rw (← (ok_injective q2), q) ((d, divided), cc)

run-IsSummary :
    (c : Codec) (contexts : List (Str × Session)) (entries : List Entry)
    → run c contexts ≡ ok entries
    → IsSummary entries contexts
unfolding run measure
run-IsSummary c [] entries h = rw (← (ok_injective h)) (tt, refl)
run-IsSummary c ((size, s) ∷ contexts) entries h =
    let (m, q, h1) = >>=-eq-ok (measure c size s) _ h in
    let (o, q1, q2) = >>=-eq-ok (chat_stream_ttft s.cold.0 s.cold.1) _ q in
    let (rest, q3, h2) = >>=-eq-ok (run c contexts) _ h1 in
    rw (← (ok_injective h2))
      (entry_of-IsSummary c size s o m rest contexts q1 q2 (run-IsSummary c contexts rest q3))

-- Whenever the benchmark ends with a summary, no average or ratio in it divides by zero.
run-IsDivided :
    (c : Codec) (contexts : List (Str × Session)) (entries : List Entry)
    → run c contexts ≡ ok entries
    → All IsDivided entries
run-IsDivided c contexts entries h = (run-IsSummary c contexts entries h).0

-- Whenever the benchmark ends with a summary, it has one entry, in the order of the contexts, for
-- each context whose cold request ended without an exception, and none for another.
run-sizes :
    (c : Codec) (contexts : List (Str × Session)) (entries : List Entry)
    → run c contexts ≡ ok entries
    → map (λ e. e.size) entries ≡ map (λ x. x.0) (keep is_answered contexts)
run-sizes c contexts entries h = (run-IsSummary c contexts entries h).1
