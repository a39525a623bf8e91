-- ===== src/Plot/Buckets.antt =====
-- Every request of the plotted time falls into one second.
use radixgates.Base.{
  ℕ, zero, suc, ◌+◌, ◌*◌, ◌≡◌, refl, sym, List, [], ◌∷◌, Bool, ◌&&◌, count_if, arith, length-keep,
}
use radixgates.Base.Int.{pos, leb_ℤ, ltb_ℤ}
use radixgates.Plot.{
  Request, second, is_within, bucket, Percentile, Second, second_of, seconds_from, per_second,
}

-- whether the request began in the `n` seconds from second `s` on
abbrev pub is_between : ℕ → ℕ → Request → Bool
is_between s n r = leb_ℤ (pos (s * second)) r.at && ltb_ℤ r.at (pos ((s + n) * second))

abbrev pub total_requests : List Second → ℕ
total_requests [] = 0
total_requests (s ∷ l) = s.requests + total_requests l

one_or_later :
    (s n : ℕ) (rows : List Request)
    → count_if (is_between s (suc n)) rows
      ≡ count_if (is_within s) rows + count_if (is_between (suc s) n) rows
one_or_later s n [] = refl
one_or_later s n (r ∷ rows) = ground (arith, one_or_later s n rows)

none_between : (s : ℕ) (rows : List Request) → count_if (is_between s 0) rows ≡ 0
none_between s [] = refl
none_between s (r ∷ rows) = ground (arith, none_between s rows)

seconds_from-total :
    (percentile : Percentile) (rows : List Request) (n s : ℕ)
    → total_requests (seconds_from percentile rows n s) ≡ count_if (is_between s n) rows
unfolding seconds_from second_of bucket
seconds_from-total percentile rows zero s = sym (none_between s rows)
seconds_from-total percentile rows (suc n) s = omega (
  arith,
  one_or_later s n rows,
  length-keep (is_within s) rows,
  seconds_from-total percentile rows n (suc s),
)

-- The seconds of a plot count every request that began within its horizon once, and no other.
per_second_total :
    (percentile : Percentile) (rows : List Request) (horizon : ℕ)
    → total_requests (per_second percentile rows horizon) ≡ count_if (is_between 0 horizon) rows
unfolding per_second
per_second_total percentile rows horizon = seconds_from-total percentile rows horizon 0
