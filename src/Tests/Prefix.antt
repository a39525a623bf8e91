-- ===== src/Tests/Prefix.antt =====
-- Two rounds that complete in different orders.
use radixgates.Base.{ℕ, ◌≡◌, refl, [], ◌∷◌, lit, all}
use radixgates.Base.Int.{pos, ◌-ℤ◌}
use radixgates.Python.{ok, os_error}
use radixgates.Ttft.{line, broken}
use radixgates.Demos.Prefix.{Service, send, test_prefix_hash_routing}
use radixgates.Demos.Prefix.Laws.{is_faster, test_prefix_hash_routing-faster}
use radixgates.Tests.Samples.{codec}

-- every first token comes after so many ticks
abbrev serve : ℕ → Service
serve n i b = (pos 0, line (lit "data: {hi}") (pos n) (pos n) (broken os_error))

sends :
    (send codec (serve 9) 0 ≡ ok (pos 9))
    × (send codec (serve 9) 1 ≡ ok (pos 9))
    × (send codec (serve 9) 2 ≡ ok (pos 9))
    × (send codec (serve 9) 3 ≡ ok (pos 9))
unfolding send ◌-ℤ◌
sends = (refl, refl, refl, refl)

warm_sends :
    (send codec (serve 5) 0 ≡ ok (pos 5))
    × (send codec (serve 5) 1 ≡ ok (pos 5))
    × (send codec (serve 5) 2 ≡ ok (pos 5))
    × (send codec (serve 5) 3 ≡ ok (pos 5))
unfolding send ◌-ℤ◌
warm_sends = (refl, refl, refl, refl)

test_prefix_hash_routing-faster_example :
    test_prefix_hash_routing codec (serve 9) (serve 5) (2 ∷ 0 ∷ 1 ∷ 3 ∷ []) (3 ∷ 1 ∷ 0 ∷ 2 ∷ [])
    ≡ ok (all (is_faster (λ i. pos 9) (λ i. pos 5)) (0 ∷ 1 ∷ 2 ∷ 3 ∷ []))
test_prefix_hash_routing-faster_example =
    test_prefix_hash_routing-faster (λ i. pos 9) (λ i. pos 5) codec (serve 9) (serve 5)
      (2 ∷ 0 ∷ 1 ∷ 3 ∷ []) (3 ∷ 1 ∷ 0 ∷ 2 ∷ [])
      ((refl, (refl, (refl, (refl, tt)))), (refl, (refl, (refl, (refl, tt)))))
      ((refl, (refl, (refl, (refl, tt)))), (refl, (refl, (refl, (refl, tt)))))
      (sends.2, (sends.0, (sends.1, (sends.3, tt))))
      (warm_sends.3, (warm_sends.1, (warm_sends.0, (warm_sends.2, tt))))
