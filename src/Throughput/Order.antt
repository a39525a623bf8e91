-- ===== src/Throughput/Order.antt =====
-- The summary of a load test does not depend on the order in which the requests complete.
use mathlib.Core.List.{Permᴰ}
use radixgates.Base.{
  ℕ, zero, suc, ◌≡◌, refl, Bool, List, [], ◌∷◌, ◌+◌, Bool-cases, inl, inr, not, ◌∙◌, keep, map,
  length, All, sym, ap₂, Option, count_if, Perm, ∥∥₁_elim, if◌then◌else◌,
}
use mathlib.Core.List.Perm
use native.Mathlib.Nat.{add_left_comm, ℕ_set}
use mathlib.Core.Path.{subst}
use radixgates.Base.Int.{ℤ}
use radixgates.Python.{Result, ok, or_raise, index_error, ◌>>=◌}
use mathlib.Core.List.{Perm-prop}
use radixgates.Stats.{Frac, median, p95}
use radixgates.Python.Json.{Json, Codec}
use radixgates.Stats.Quantile.{median_perm, p95_perm}
use radixgates.Stats.Order.{length_perm}
use radixgates.Throughput.{Service, Latency, unmeasured, measured, latency_of, throughput}
use radixgates.Throughput.Laws.{IsCalm, exchange, answered, answer_times, throughput-Report}
use radixgates.Throughput.Counts.{latency_of_total}

module _ {A : Type 0} (p : A → Bool) where
  count_if_permᴰ : {l m : List A} → Permᴰ l m → count_if p l ≡ count_if p m
  count_if_permᴰ Permᴰ.nil = refl
  count_if_permᴰ (Permᴰ.cons {l₁ = l} {l₂ = m} e d) =
      ap₂ (λ x n. (if p x then 1 else 0) + n) e (count_if_permᴰ d)
  count_if_permᴰ (Permᴰ.swap {a = a} {b = b} {l = l} e f) =
      add_left_comm (if p a then 1 else 0) (if p b then 1 else 0) (count_if p l)
      ∙ ap₂ (λ x y. (if p x then 1 else 0) + ((if p y then 1 else 0) + count_if p l)) f e
  count_if_permᴰ (Permᴰ.trans d e) = count_if_permᴰ d ∙ count_if_permᴰ e

  pub count_if_perm : (l m : List A) → Perm l m → count_if p l ≡ count_if p m
  count_if_perm l m h = ∥∥₁_elim h (ℕ_set _ _) count_if_permᴰ

module _ {A : Type 0} (p : A → Bool) (g : A → ℤ) where
  abbrev chosen : List A → List ℤ
  chosen l = map g (keep p l)

  chosen-cons :
      (a : A) (l m : List A) → Perm (chosen l) (chosen m) → Perm (chosen (a ∷ l)) (chosen (a ∷ m))
  chosen-cons a l m h = elim (Bool-cases (p a)) [
    | inl e ↦ rw e (Perm.cons (g a) h)
    | inr e ↦ rw e h
  ]

  chosen-swap : (a b : A) (l : List A) → Perm (chosen (a ∷ b ∷ l)) (chosen (b ∷ a ∷ l))
  chosen-swap a b l = elim (Bool-cases (p a)) [
    | inl e ↦ elim (Bool-cases (p b)) [
      | inl f ↦ rw (e, f) (Perm.swap (g b) (g a) (chosen l))
      | inr f ↦ rw (e, f) (Perm.refl (g a ∷ chosen l))
    ]
    | inr e ↦ rw e (Perm.refl (chosen (b ∷ l)))
  ]

  chosen_permᴰ : {l m : List A} → Permᴰ l m → Perm (chosen l) (chosen m)
  chosen_permᴰ Permᴰ.nil = Perm.refl []
  chosen_permᴰ (Permᴰ.cons {a = a} {l₁ = l} {l₂ = m} e d) =
      subst (λ x. Perm (chosen (a ∷ l)) (chosen (x ∷ m))) e (chosen-cons a l m (chosen_permᴰ d))
  chosen_permᴰ (Permᴰ.swap {a = a} {b = b} {b' = b'} {l = l} e f) =
      subst (λ x. Perm (chosen (a ∷ b ∷ l)) (chosen (x ∷ b' ∷ l))) f
        (subst (λ x. Perm (chosen (a ∷ b ∷ l)) (chosen (b ∷ x ∷ l))) e (chosen-swap a b l))
  chosen_permᴰ (Permᴰ.trans d e) = Perm.trans (chosen_permᴰ d) (chosen_permᴰ e)

  chosen_perm : (l m : List A) → Perm l m → Perm (chosen l) (chosen m)
  chosen_perm l m h = ∥∥₁_elim h Perm-prop chosen_permᴰ

latency_cases : ℕ → Result Latency → Result Latency
latency_cases zero r = ok unmeasured
latency_cases (suc n) r = r

from_quantiles : Option Frac → Option ℤ → Result Latency
from_quantiles m v = do a ← or_raise m index_error; b ← or_raise v index_error; ok (measured a b)

latency_of-quantiles :
    (xs : List ℤ) → latency_of xs ≡ latency_cases (length xs) (from_quantiles (median xs) (p95 xs))
unfolding latency_of latency_cases from_quantiles
latency_of-quantiles [] = refl
latency_of-quantiles (x ∷ xs) = refl

latency_of_perm : (xs ys : List ℤ) → Perm xs ys → latency_of xs ≡ latency_of ys
latency_of_perm xs ys h = rw (
  latency_of-quantiles xs,
  latency_of-quantiles ys,
  median_perm xs ys h,
  p95_perm xs ys h,
  length_perm xs ys h,
)

module _ (c : Codec) (serve : Service) (payload : ℕ → Json) where
  -- If no request is interrupted, every order of completion gives the same report. It counts as
  -- successes the requests that brought an answer and as failures all others, and takes the
  -- latencies of the successes alone.
  pub throughput_perm :
      (total : ℤ) (order order' : List ℕ)
      → ((i : ℕ) → IsCalm (exchange c serve payload i).result)
      → Perm order order'
      → (l : Latency) × (latency_of (answer_times c serve payload order) ≡ ok l)
        × (throughput c serve payload total order
            ≡ ok (record {
              wall = total;
              success = count_if (answered c serve payload) order;
              fail = count_if (λ i. not (answered c serve payload i)) order;
              latency = l;
            }))
        × (throughput c serve payload total order' ≡ throughput c serve payload total order)
  unfolding answer_times
  throughput_perm total order order' calm h =
      let (l, e) = latency_of_total (answer_times c serve payload order) in
      let e' : latency_of (answer_times c serve payload order') ≡ ok l =
        latency_of_perm _ _ (Perm.symm (chosen_perm _ _ order order' h)) ∙ e in
      let r = throughput-Report c serve payload total order l (everywhere order) e in
      (
        l,
        e,
        r,
        throughput-Report c serve payload total order' l (everywhere order') e'
            ∙ (λ j. ok (record {
              wall = total;
              success = count_if_perm (answered c serve payload) order' order (Perm.symm h) j;
              fail =
                  count_if_perm (λ i. not (answered c serve payload i)) order' order (Perm.symm h)
                    j;
              latency = l;
            }))
            ∙ sym r,
      )
    where
      everywhere : (o : List ℕ) → All (λ i. IsCalm (exchange c serve payload i).result) o
      everywhere [] = tt
      everywhere (i ∷ o) = (calm i, everywhere o)
