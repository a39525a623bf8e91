-- ===== src/Stats/Quantile.antt =====
-- What the reported median and 95th percentile say of the measured times.
use radixgates.Base.{ℕ, zero, suc, ◌+◌, ◌-◌, ◌*◌, ◌/◌, ◌%◌, ◌≤◌, ◌<◌, ◌≡◌, refl, arith}
use radixgates.Base.{Option, none, some, List, [], ◌∷◌, inl, inr, Bool}
use radixgates.Base.{length, get_elem?, count_if, ◌==◌}
use radixgates.Base.{Perm, Bool-cases, true, false}
use radixgates.Base.Int.{ℤ, ◌≤ℤ◌, leb_ℤ, ◌*ℤ◌, ◌+ℤ◌, *ℤ_parts, +ℤ_parts}
use radixgates.Stats.{sorted, Frac, middle, median, p95}
use radixgates.Stats.Order.{sorted-IsSorted, sorted_perm, length_perm}
use radixgates.Stats.Rank.{at_most, at_least, sorted_rank, neighbours_le}

count_if_mono :
    (p q : ℤ → Bool) (xs : List ℤ)
    → ((x : ℤ) → p x ≡ true → q x ≡ true)
    → count_if p xs ≤ count_if q xs
count_if_mono p q [] h = omega arith
count_if_mono p q (x ∷ xs) h = ground (arith, h x, count_if_mono p q xs h)

-- How many values lie at or below, and at or above, a fraction.
abbrev pub at_most_frac : Frac → List ℤ → ℕ
at_most_frac m = count_if (λ x. leb_ℤ (m.den *ℤ x) m.num)

abbrev pub at_least_frac : Frac → List ℤ → ℕ
at_least_frac m = count_if (λ x. leb_ℤ m.num (m.den *ℤ x))

-- the middle value of an odd count, and the mean of the two middle values of an even one
HasHalves : List ℤ → Frac → Type 0
HasHalves xs m = (length xs ≤ 2 * at_most_frac m xs) × (length xs ≤ 2 * at_least_frac m xs)

odd_halves :
    (xs : List ℤ) (v : ℤ)
    → length xs < 2 * at_most v xs + 1
    → length xs < 2 * at_least v xs + 1
    → HasHalves xs (record { num = v; den = 1 })
unfolding HasHalves
odd_halves xs v below above = (
  omega (arith, count_if_mono (λ x. leb_ℤ x v) (λ x. leb_ℤ (1 *ℤ x) v) xs (one_below)),
  omega (arith, count_if_mono (λ x. leb_ℤ v x) (λ x. leb_ℤ v (1 *ℤ x)) xs (one_above)),
)
  where
    one_below : (x : ℤ) → leb_ℤ x v ≡ true → leb_ℤ (1 *ℤ x) v ≡ true
    one_below x h = ground (arith, *ℤ_parts 1 x)

    one_above : (x : ℤ) → leb_ℤ v x ≡ true → leb_ℤ v (1 *ℤ x) ≡ true
    one_above x h = ground (arith, *ℤ_parts 1 x)

even_halves :
    (xs : List ℤ) (a b : ℤ)
    → a ≤ℤ b
    → length xs < 2 * at_most a xs + 1
    → length xs < 2 * at_least b xs + 1
    → HasHalves xs (record { num = a +ℤ b; den = 2 })
unfolding HasHalves
even_halves xs a b le below above = (
  omega (arith, count_if_mono (λ x. leb_ℤ x a) (λ x. leb_ℤ (2 *ℤ x) (a +ℤ b)) xs two_below),
  omega (arith, count_if_mono (λ x. leb_ℤ b x) (λ x. leb_ℤ (a +ℤ b) (2 *ℤ x)) xs two_above),
)
  where
    two_below : (x : ℤ) → leb_ℤ x a ≡ true → leb_ℤ (2 *ℤ x) (a +ℤ b) ≡ true
    two_below x h = ground (arith, *ℤ_parts 2 x, +ℤ_parts a b)

    two_above : (x : ℤ) → leb_ℤ b x ≡ true → leb_ℤ (a +ℤ b) (2 *ℤ x) ≡ true
    two_above x h = ground (arith, *ℤ_parts 2 x, +ℤ_parts a b)

middle_le :
    (xs : List ℤ) {a b : ℤ}
    → 0 < length xs
    → (length xs % 2 == 1) ≡ false
    → get_elem? (sorted xs) (length xs / 2 - 1) ≡ some a
    → get_elem? (sorted xs) (length xs / 2) ≡ some b
    → a ≤ℤ b
middle_le xs h even ea eb =
    let e : length xs / 2 ≡ suc (length xs / 2 - 1) = ground arith in
    neighbours_le (sorted xs) (length xs / 2 - 1) (sorted-IsSorted xs) ea (rw e at eb)

middle_rank :
    (xs : List ℤ)
    → 0 < length xs
    → (m : Frac) × (middle (length xs) (sorted xs) ≡ some m) × HasHalves xs m
unfolding middle
middle_rank xs h = elim (Bool-cases (length xs % 2 == 1)) [
  | inl odd ↦
      let (v, e, below, above) = sorted_rank xs (length xs / 2) (omega arith) in
      (record { num = v; den = 1 }, rw (odd, e), odd_halves xs v (ground arith) (ground arith))
  | inr even ↦
      let (a, ea, below, _) = sorted_rank xs (length xs / 2 - 1) (omega arith) in
      let (b, eb, _, above) = sorted_rank xs (length xs / 2) (omega arith) in
      (
        record { num = a +ℤ b; den = 2 },
        rw (even, ea, eb),
        even_halves xs a b (middle_le xs h even ea eb) (ground arith) (ground arith),
      )
]

-- Of data there is a median, and at least half of the values lie at or below it and at least half
-- at or above it.
pub median_rank :
    (xs : List ℤ)
    → 0 < length xs
    → (m : Frac) × (median xs ≡ some m)
      × (length xs ≤ 2 * at_most_frac m xs)
      × (length xs ≤ 2 * at_least_frac m xs)
unfolding median HasHalves
median_rank [] h = absurd (omega arith)
median_rank (x ∷ xs) h = let (m, e, halves) = middle_rank (x ∷ xs) h in (m, e, halves.0, halves.1)

-- Of data the 95th percentile is found at the index that is used, at least 95% of the values lie
-- at or below it, and at least 5% at or above it.
pub p95_rank :
    (xs : List ℤ)
    → 0 < length xs
    → (v : ℤ) × (p95 xs ≡ some v)
      × (95 * length xs ≤ 100 * at_most v xs)
      × (5 * length xs ≤ 100 * at_least v xs)
unfolding p95
p95_rank xs h =
    let (v, e, below, above) = sorted_rank xs (length xs * 95 / 100) (omega arith) in
    (v, e, omega arith, omega arith)

median_cases : ℕ → Option Frac → Option Frac
median_cases zero m = none
median_cases (suc n) m = m

median-middle :
    (xs : List ℤ) → median xs ≡ median_cases (length xs) (middle (length xs) (sorted xs))
unfolding median median_cases
median-middle [] = refl
median-middle (x ∷ xs) = refl

-- Neither depends on the order in which the times came.
pub median_perm : (xs ys : List ℤ) → Perm xs ys → median xs ≡ median ys
median_perm xs ys p =
    rw (median-middle xs, median-middle ys, sorted_perm xs ys p, length_perm xs ys p)

pub p95_perm : (xs ys : List ℤ) → Perm xs ys → p95 xs ≡ p95 ys
unfolding p95
p95_perm xs ys p = rw (sorted_perm xs ys p, length_perm xs ys p)
