-- ===== src/Stats.antt =====
-- The statistics that the scripts take of a list of times: `sorted` and `statistics.median` of
-- Python's library, and the 95th percentile of the demos (examples/dp_demo.py and its siblings).
pub mod Order
pub mod Rank
pub mod Quantile
use radixgates.Base.{ℕ, zero, suc, ◌+◌, ◌-◌, ◌*◌, ◌/◌, ◌%◌, Option, none, some, List, [], ◌∷◌}
use radixgates.Base.{get_elem?, length, ◌==◌, if◌then◌else◌}
use radixgates.Base.Int.{ℤ, ◌+ℤ◌, leb_ℤ}

insert : ℤ → List ℤ → List ℤ
insert x [] = x ∷ []
insert x (y ∷ ys) = if leb_ℤ x y then x ∷ y ∷ ys else y ∷ insert x ys

unfoldable pub sorted : List ℤ → List ℤ
unfolding insert
sorted [] = []
sorted (x ∷ xs) = insert x (sorted xs)

-- A value num / den. The mean of two ints may be a half.
pub record Frac : Type 0 where
  pub num : ℤ
  pub den : ℕ

-- The middle of an ascending list of `n` values, `n` at least 1; `none` is an IndexError.
middle : ℕ → List ℤ → Option Frac
middle n s =
    if n % 2 == 1
    then elim (get_elem? s (n / 2)) [ some x ↦ some (record { num = x; den = 1 }) | none ↦ none ]
    else elim (get_elem? s (n / 2 - 1)) [
      | none ↦ none
      | some a ↦ elim (get_elem? s (n / 2)) [
        | none ↦ none
        | some b ↦ some (record { num = a +ℤ b; den = 2 })
      ]
    ]

-- `statistics.median`; `none` is a StatisticsError, which no data raises.
unfoldable pub median : List ℤ → Option Frac
unfolding middle sorted
median [] = none
median (x ∷ xs) = middle (length (x ∷ xs)) (sorted (x ∷ xs))

-- `sorted(latencies)[int(len(latencies) * 0.95)]`; `none` is an IndexError. The product of floats
-- has the integer part of n * 95 / 100 for the lengths that occur, which are at most 40.
unfoldable pub p95 : List ℤ → Option ℤ
unfolding sorted
p95 xs = get_elem? (sorted xs) (length xs * 95 / 100)
