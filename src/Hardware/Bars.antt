-- ===== src/Hardware/Bars.antt =====
-- The bar of a GPU, and when the check of tp_demo.py says what.
use native.Mathlib.Nat.{div-mul-le_self, lt-div-mul-add}
use radixgates.Base.{ℕ, zero, suc, List, [], ◌∷◌, ◌++◌, Bool, true, false, ◌≡◌, refl, ◌↔◌, ap, ◌∙◌}
use radixgates.Base.{
  not, ◌&&◌, ◌||◌, ◌+◌, ◌-◌, ◌*◌, ◌/◌, ◌==◌, ◌≤◌, ◌<◌, leb, all, length, replicate, length-append,
  length-replicate, arith, if◌then◌else◌, max,
}
use radixgates.Base.Int.{ℤ, pos, negsuc, ◌-ℤ◌, pos_part}
use radixgates.Hardware.{
  Gpu, at_least_one, filled, repeat, bar, is_above, Verdict, all_allocated, only_one,
  no_information, tp_verdict,
}

at_least_one_pos : (t : ℤ) → 0 < at_least_one t
at_least_one_pos (pos zero) = omega arith
at_least_one_pos (pos (suc n)) = omega arith
at_least_one_pos (negsuc n) = omega arith

length-repeat : (c : ℕ) (x : ℤ) → length (repeat c x) ≡ pos_part x
length-repeat c (pos n) = length-replicate n c
length-repeat c (negsuc n) = refl

rest_of : (f : ℕ) → pos_part (pos 30 -ℤ pos f) ≡ 30 - f
unfolding ◌-ℤ◌
rest_of f = ground arith

bar-length : (f : ℕ) → length (repeat 0x2588 (pos f) ++ repeat 0x2591 (pos 30 -ℤ pos f)) ≡ max 30 f
bar-length f =
    length-append (replicate f 0x2588) (repeat 0x2591 (pos 30 -ℤ pos f))
    ∙ omega (
      arith,
      length-replicate {A = ℕ} f 0x2588,
      length-repeat 0x2591 (pos 30 -ℤ pos f),
      rest_of f,
    )

-- The full blocks of a GPU's bar are the whole thirtieths of its memory in use: no more than the
-- share in use, and less than one block fewer. With the empty blocks the bar has 30 characters,
-- and more only if more is in use than there is.
bar_share :
    (used : ℕ) (total : ℤ)
    → (f : ℕ) × (filled (pos used) total ≡ pos f)
      × (f * at_least_one total ≤ 30 * used)
      × (30 * used < f * at_least_one total + at_least_one total)
      × (length (bar (pos used) total) ≡ max 30 f)
unfolding filled bar
bar_share used total = (
  30 * used / at_least_one total,
  refl,
  div-mul-le_self (30 * used) (at_least_one total),
  lt-div-mul-add (at_least_one_pos total),
  bar-length (30 * used / at_least_one total),
)

-- the verdict, from the number of GPUs and whether all are loaded
verdict_of : ℕ → Bool → Verdict
verdict_of n loaded =
    if leb 2 n && loaded
    then all_allocated
    else if n == 1 || (not (n == 0) && not loaded)
    then only_one
    else no_information

tp_verdict-verdict_of :
    (rows : List Gpu) → tp_verdict rows ≡ verdict_of (length rows) (all (is_above 20) rows)
unfolding tp_verdict verdict_of
tp_verdict-verdict_of [] = refl
tp_verdict-verdict_of (g ∷ rows) =
    ap
      (λ b.
        if leb 2 (length (g ∷ rows)) && all (is_above 20) (g ∷ rows)
        then all_allocated
        else if length (g ∷ rows) == 1 || (b && not (all (is_above 20) (g ∷ rows)))
        then only_one
        else no_information)
      (nonzero (length rows))
  where
    nonzero : (n : ℕ) → true ≡ not (suc n == 0)
    nonzero n = ground arith

verdict_of_iff :
    (n : ℕ) (loaded : Bool)
    → ((verdict_of n loaded ≡ all_allocated) ↔ ((2 ≤ n) × (loaded ≡ true)))
      × ((verdict_of n loaded ≡ no_information) ↔ (n ≡ 0))
unfolding verdict_of
verdict_of_iff n true = ground arith
verdict_of_iff n false = ground arith

-- The check says that all GPUs have an allocation exactly if there are two or more and each uses
-- over 20% of its memory, and that there is no information exactly if no GPU was read.
tp_verdict_iff :
    (rows : List Gpu)
    → ((tp_verdict rows ≡ all_allocated) ↔ ((2 ≤ length rows) × (all (is_above 20) rows ≡ true)))
      × ((tp_verdict rows ≡ no_information) ↔ (length rows ≡ 0))
tp_verdict_iff rows =
    rw (tp_verdict-verdict_of rows) (verdict_of_iff (length rows) (all (is_above 20) rows))
