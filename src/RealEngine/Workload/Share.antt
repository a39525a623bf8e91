-- ===== src/RealEngine/Workload/Share.antt =====
-- How many of the requests go to each prompt.
use radixgates.Base.{
  ℕ, zero, suc, List, [], ◌∷◌, false, ◌≡◌, refl, ap, ◌∙◌, ◌+◌, ◌*◌, ◌%◌, ◌==◌, ◌<◌, ltb, map,
  count_if, range_from, Perm, if◌then◌else◌, arith, Bool-cases, inl, inr,
}
use native.Mathlib.Nat.{mod-lt}
use radixgates.RealEngine.Share.{remainders_of}
use radixgates.RealEngine.Workload.{Query, Random, request_of, workload}
use radixgates.Throughput.Order.{count_if_perm}

count_if-request_of :
    (r : Random) (prompts pid : ℕ) (ns : List ℕ)
    → count_if (λ q. q.0 == pid) (map (request_of r prompts) ns)
      ≡ count_if (λ n. n % prompts == pid) ns
count_if-request_of r prompts pid [] = refl
count_if-request_of r prompts pid (n ∷ ns) =
    ap (λ k. (if n % prompts == pid then 1 else 0) + k) (count_if-request_of r prompts pid ns)

no_remainder :
    (prompts pid : ℕ) (ns : List ℕ)
    → 0 < prompts
    → ltb pid prompts ≡ false
    → count_if (λ n. n % prompts == pid) ns ≡ 0
no_remainder prompts pid [] h e = refl
no_remainder prompts pid (n ∷ ns) h e =
    ground (arith, no_remainder prompts pid ns h e, mod-lt n {m = prompts} h)

count_if-share :
    (prompts per_prompt pid : ℕ)
    → count_if (λ n. n % prompts == pid) (range_from (prompts * per_prompt) 0)
      ≡ (if ltb pid prompts then per_prompt else 0)
count_if-share zero per_prompt pid =
    let e : 0 * per_prompt ≡ 0 = omega arith in
    let none_yet : 0 ≡ (if ltb pid 0 then per_prompt else 0) = ground arith in
    ap (λ k. count_if (λ n. n % 0 == pid) (range_from k 0)) e ∙ none_yet
count_if-share (suc p) per_prompt pid = elim (Bool-cases (ltb pid (suc p))) [
  | inl e ↦ rw e (
      ap (λ k. count_if (λ n. n % suc p == pid) (range_from k 0)) (swap (suc p) per_prompt)
      ∙ remainders_of (suc p) pid per_prompt 0 (ground arith) (omega arith)
      ∙ ground arith)
  | inr e ↦ rw e (no_remainder (suc p) pid (range_from (suc p * per_prompt) 0) (omega arith) e)
]
  where
    swap : (a b : ℕ) → a * b ≡ b * a + 0
    swap a b = omega arith

-- Whatever the random numbers are, and if `shuffle` returns its list in some order, the workload
-- has exactly `per_prompt` requests for each of its prompts, and none for another index.
pub workload-share :
    (r : Random) (prompts per_prompt pid : ℕ)
    → ((qs : List Query) → Perm (r.shuffle qs) qs)
    → count_if (λ q. q.0 == pid) (workload r prompts per_prompt).1
      ≡ (if ltb pid prompts then per_prompt else 0)
unfolding workload
workload-share r prompts per_prompt pid h =
    count_if_perm (λ q. q.0 == pid) _ _ (h _)
    ∙ count_if-request_of r prompts pid _
    ∙ count_if-share prompts per_prompt pid
