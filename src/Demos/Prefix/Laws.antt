-- ===== src/Demos/Prefix/Laws.antt =====
-- The comparison of the two rounds does not depend on the order in which the requests complete.
use radixgates.Base.{
  ℕ, ◌≡◌, refl, ap, sym, ◌∙◌, List, [], ◌∷◌, str_eq, some, Bool, true, false, ◌&&◌, all, ◌⊎◌, All,
  Bool-cases, inl, inr,
}
use radixgates.Base.Int.{ℤ, ◌*ℤ◌, ltb_ℤ}
use radixgates.Base.Dict.{Dict, lookup, str_eq-eq}
use radixgates.Python.{ok, ◌>>=◌}
use radixgates.Python.Json.{Codec}
use radixgates.Demos.Prefix.{Service, send, label, round, all_faster, test_prefix_hash_routing}
use radixgates.Demos.Prefix.Times.{
  label-injective, is_in, times_of, round-times_of, times_of-lookup, IsEntry, times_of-All,
  is_in-append, All-is_in, all-true, all-false,
}

module _ (cold warm : ℕ → ℤ) where
  abbrev pub is_faster : ℕ → Bool
  is_faster i = ltb_ℤ (10 *ℤ warm i) (9 *ℤ cold i)

  abbrev WarmKnows : Dict ℤ → List ℕ → Type 0
  WarmKnows w order = (i : ℕ) → is_in i order ≡ true → lookup (label i) w ≡ some (warm i)

  -- If all are faster the loop says so.
  all_faster-true :
      (w : Dict ℤ) (order : List ℕ) (d : Dict ℤ)
      → WarmKnows w order
      → All (IsEntry cold order) d
      → ((i : ℕ) → is_in i order ≡ true → is_faster i ≡ true)
      → all_faster w d ≡ ok true
  unfolding all_faster
  all_faster-true w order [] knows entries h = refl
  all_faster-true w order ((k, v) ∷ d) knows ((i, member, ek, ev), entries) h =
      rw (ek, ev, knows i member, h i member)
        (ap (λ m. m >>= λ rest. ok (true && rest)) (all_faster-true w order d knows entries h))

  -- If one is not, the loop says no.
  all_faster-false :
      (w : Dict ℤ) (order : List ℕ) (d : Dict ℤ) (i : ℕ)
      → WarmKnows w order
      → All (IsEntry cold order) d
      → lookup (label i) d ≡ some (cold i)
      → is_faster i ≡ false
      → all_faster w d ≡ ok false
  unfolding all_faster
  all_faster-false w order [] i knows entries found slow = absurd (cc)
  all_faster-false w order ((k, v) ∷ d) i knows ((j, member, ek, ev), entries) found slow =
      elim (Bool-cases (is_faster j)) [
        | inl fast ↦
            rw (ek, ev, knows j member, fast)
              (ap (λ m. m >>= λ rest. ok (true && rest))
                (all_faster-false w order d i knows entries
                  (behind fast (Bool-cases (str_eq (label i) k))) slow))
        | inr slow_too ↦ rw (ek, ev, knows j member, slow_too) refl
      ]
    where
      behind :
          is_faster j ≡ true
          → (str_eq (label i) k ≡ true) ⊎ (str_eq (label i) k ≡ false)
          → lookup (label i) d ≡ some (cold i)
      behind fast (inl same) =
          let equal : i ≡ j = label-injective i j (str_eq-eq (label i) k same ∙ ek) in
          absurd (both (sym fast ∙ sym (ap is_faster equal) ∙ slow))
        where
          both : true ≡ false → ⊥
          both e = cc
      behind fast (inr other) = rw other at found

  abbrev pub four : List ℕ
  four = 0 ∷ 1 ∷ 2 ∷ 3 ∷ []

  -- the four requests, each once or more, in any order
  abbrev pub Completes : List ℕ → Type 0
  Completes order = All (λ i. is_in i order ≡ true) four × All (λ i. is_in i four ≡ true) order

  verdict-times_of :
      (cold_order warm_order : List ℕ)
      → Completes cold_order
      → Completes warm_order
      → all_faster (times_of warm warm_order []) (times_of cold cold_order [])
        ≡ ok (all is_faster four)
  verdict-times_of cold_order warm_order hc hw =
      let knows : WarmKnows (times_of warm warm_order []) cold_order = λ i e.
        times_of-lookup warm i warm_order [] (
          All-is_in (λ j. is_in j warm_order ≡ true) four i hw.0
            (All-is_in (λ j. is_in j four ≡ true) cold_order i hc.1 e)) in
      let entries : All (IsEntry cold cold_order) (times_of cold cold_order []) =
        times_of-All cold cold_order cold_order [] (is_in-append [] cold_order) tt in
      elim (Bool-cases (all is_faster four)) [
        | inl fast ↦
            all_faster-true (times_of warm warm_order []) cold_order (times_of cold cold_order [])
              knows entries
              (λ i e.
                All-is_in (λ j. is_faster j ≡ true) four i (all-true is_faster four fast)
                  (All-is_in (λ j. is_in j four ≡ true) cold_order i hc.1 e))
            ∙ ap ok (sym fast)
        | inr slow ↦
            let (i, member, slower) = all-false is_faster four slow in
            all_faster-false (times_of warm warm_order []) cold_order (times_of cold cold_order [])
              i knows entries
              (times_of-lookup cold i cold_order []
                (All-is_in (λ j. is_in j cold_order ≡ true) four i hc.0 member))
              slower
            ∙ ap ok (sym slow)
      ]

  -- Whatever the orders in which the four requests of each round complete, the test says that warm
  -- times are materially below cold ones exactly if each of the four prefixes was faster by more
  -- than a tenth in the second round.
  pub test_prefix_hash_routing-faster :
      (c : Codec) (cold_serve warm_serve : Service) (cold_order warm_order : List ℕ)
      → Completes cold_order
      → Completes warm_order
      → All (λ i. send c cold_serve i ≡ ok (cold i)) cold_order
      → All (λ i. send c warm_serve i ≡ ok (warm i)) warm_order
      → test_prefix_hash_routing c cold_serve warm_serve cold_order warm_order
        ≡ ok (all is_faster four)
  unfolding test_prefix_hash_routing
  test_prefix_hash_routing-faster c cold_serve warm_serve cold_order warm_order hc hw sc sw =
      ap
        (λ m. m >>= λ cold_times.
          round c warm_serve warm_order [] >>= λ warm_times. all_faster warm_times cold_times)
        (round-times_of cold c cold_serve cold_order [] sc)
      ∙ ap (λ m. m >>= λ warm_times. all_faster warm_times (times_of cold cold_order []))
          (round-times_of warm c warm_serve warm_order [] sw)
      ∙ verdict-times_of cold_order warm_order hc hw
