-- ===== src/Stats/Rank.antt =====
-- What an index into the ascending list says of the data: how many values lie at or below the
-- value found there, and how many at or above it.
use mathlib.Core.Option.{some-injective}
use radixgates.Base.{ℕ, zero, suc, ◌+◌, ◌≤◌, ◌<◌, ◌≡◌, arith}
use radixgates.Base.{some, List, [], ◌∷◌}
use radixgates.Base.{All-get_elem?, All, length, get_elem?, get_elem?-All, count_if}
use radixgates.Base.Int.{ℤ, ◌≤ℤ◌, leb_ℤ}
use radixgates.Stats.{sorted}
use radixgates.Stats.Order.{IsSorted, sorted-IsSorted, count_if-sorted, length-sorted}

abbrev pub at_most : ℤ → List ℤ → ℕ
at_most v = count_if (λ x. leb_ℤ x v)

abbrev pub at_least : ℤ → List ℤ → ℕ
at_least v = count_if (λ x. leb_ℤ v x)

rank_le : (l : List ℤ) (k : ℕ) (v : ℤ) → IsSorted l → get_elem? l k ≡ some v → k + 1 ≤ at_most v l
rank_le [] k v s e = cc
rank_le (x ∷ xs) zero v s e = ground (arith, some-injective x v e)
rank_le (x ∷ xs) (suc k) v s e =
    let below : x ≤ℤ v = All-get_elem? (λ y. x ≤ℤ y) xs k v s.0 e in
    ground (arith, below, rank_le xs k v s.1 e)

All-at_least : (v : ℤ) (l : List ℤ) → All (λ y. v ≤ℤ y) l → length l ≤ at_least v l
All-at_least v [] a = omega arith
All-at_least v (x ∷ xs) a = ground (arith, All-at_least v xs a.1)

rank_ge :
    (l : List ℤ) (k : ℕ) (v : ℤ) → IsSorted l → get_elem? l k ≡ some v → length l ≤ k + at_least v l
rank_ge [] k v s e = omega arith
rank_ge (x ∷ xs) zero v s e = ground (arith, some-injective x v e, All-at_least x xs s.0)
rank_ge (x ∷ xs) (suc k) v s e = ground (arith, rank_ge xs k v s.1 e)

pub neighbours_le :
    (l : List ℤ) (k : ℕ) {a b : ℤ}
    → IsSorted l
    → get_elem? l k ≡ some a
    → get_elem? l (suc k) ≡ some b
    → a ≤ℤ b
neighbours_le [] k s ea eb = absurd (cc)
neighbours_le (x ∷ xs) zero {b = b} s ea eb =
    rw (← some-injective x _ ea) (All-get_elem? (λ y. x ≤ℤ y) xs zero b s.0 eb)
neighbours_le (x ∷ xs) (suc k) s ea eb = neighbours_le xs k s.1 ea eb

-- Any index of the sorted data finds a value with these ranks.
pub sorted_rank :
    (xs : List ℤ) (k : ℕ)
    → k < length xs
    → (v : ℤ) × (get_elem? (sorted xs) k ≡ some v)
      × (k + 1 ≤ at_most v xs)
      × (length xs ≤ k + at_least v xs)
sorted_rank xs k h =
    let (v, e, _) =
      get_elem?-All (λ _. Unit {0}) (sorted xs) k (everything (sorted xs))
        (omega (arith, length-sorted xs)) in
    (
      v,
      e,
      omega (
        arith,
        rank_le (sorted xs) k v (sorted-IsSorted xs) e,
        count_if-sorted (λ x. leb_ℤ x v) xs,
      ),
      omega (
        arith,
        length-sorted xs,
        rank_ge (sorted xs) k v (sorted-IsSorted xs) e,
        count_if-sorted (λ x. leb_ℤ v x) xs,
      ),
    )
  where
    everything : (l : List ℤ) → All (λ _. Unit {0}) l
    everything [] = tt
    everything (x ∷ l) = (tt, everything l)
