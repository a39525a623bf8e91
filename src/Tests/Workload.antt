-- ===== src/Tests/Workload.antt =====
-- The workload of three prompts with two requests each.
use mathlib.Core.List.Perm
use radixgates.Base.{◌≡◌, refl, ◌%◌, ◌*◌, ◌+◌, List, [], ◌∷◌, lit, count_if, Perm, ◌==◌, map}
use radixgates.Base.Decimal.{show_ℕ}
use radixgates.RealEngine.Workload.{Query, Random, workload, column}
use radixgates.RealEngine.Workload.Share.{workload-share}

-- the first two requests swapped
abbrev swap_first : List Query → List Query
swap_first [] = []
swap_first (q ∷ []) = q ∷ []
swap_first (q ∷ p ∷ qs) = p ∷ q ∷ qs

abbrev random : Random
random = record { randrange = λ i bound. (7 * i + 5) % bound; shuffle = swap_first }

swap_first-Perm : (qs : List Query) → Perm (random.shuffle qs) qs
swap_first-Perm [] = Perm.refl []
swap_first-Perm (q ∷ []) = Perm.refl (q ∷ [])
swap_first-Perm (q ∷ p ∷ qs) = Perm.swap q p qs

indices : map (λ q. q.0) (workload random 3 2).1 ≡ 1 ∷ 0 ∷ 2 ∷ 0 ∷ 1 ∷ 2 ∷ []
unfolding workload
indices = refl

last_column : column 5 1 7 ≡ lit "c5_1_7 DATE"
unfolding show_ℕ
last_column = refl

workload-share_example : count_if (λ q. q.0 == 2) (workload random 3 2).1 ≡ 2
workload-share_example = workload-share random 3 2 2 swap_first-Perm
