-- ===== src/RealEngine/Report/Laws.antt =====
-- What the results of an experiment hold, and which run the last column of the report is about.
use mathlib.Core.Option.{some-injective}
use radixgates.Base.{
  ℕ, zero, suc, ◌/◌, ◌<◌, ◌≡◌, refl, sym, ◌∙◌, ap, Bool, true, false, Bool-cases, inl, inr, List,
  [], ◌∷◌, ◌++◌, map, length-map, length-range_from, get_elem?-range_from, range_from, some, Str,
  str_eq, any, All, if◌then◌else◌, arith, append-nil, append_assoc,
}
use radixgates.Base.Dict.{has_key, lookup, insert, lookup-insert, TextsDistinct, str_eq-eq}
use radixgates.Python.{Result, ok}
use radixgates.RealEngine.Report.{
  Measured, Results, add_policies, append_result, append_to, run_policies, run_repeats,
  measure_repeats,
}
use radixgates.RealEngine.Report.Text.{middle_share}
use radixgates.RealEngine.Report.Keys.{
  has_key-append_result, Present, Present-same, Present-add_policies,
}

append_result-here :
    (p : Str) (s : Measured) (d : Results) (runs : List Measured)
    → lookup p d ≡ some runs
    → lookup p (append_result p s d) ≡ some (runs ++ (s ∷ []))
unfolding append_result
append_result-here p s [] runs e = absurd (cc)
append_result-here p s ((q, old) ∷ d) runs e = elim (Bool-cases (str_eq p q)) [
  | inl here ↦ rw (here, here, some-injective _ _ (rw here at e)) refl
  | inr there ↦ rw (there, there) (append_result-here p s d runs (rw there at e))
]

append_result-other :
    (p q : Str) (s : Measured) (d : Results)
    → str_eq p q ≡ false
    → lookup p (append_result q s d) ≡ lookup p d
unfolding append_result
append_result-other p q s [] ne = refl
append_result-other p q s ((r, runs) ∷ d) ne = elim (Bool-cases (str_eq q r)) [
  | inl e ↦ let ne' : str_eq p r ≡ false = rw (sym (str_eq-eq q r e)) ne in rw (e, ne') refl
  | inr e ↦ rw (e, append_result-other p q s d ne) refl
]

add_policies-lookup :
    (p : Str) (policies : List Str) (d : Results)
    → lookup p d ≡ some []
    → lookup p (add_policies policies d) ≡ some []
unfolding add_policies
add_policies-lookup p [] d e = e
add_policies-lookup p (q ∷ policies) d e =
    add_policies-lookup p policies (insert q [] d)
      (lookup-insert p q [] d ∙ empty_either (str_eq p q))
  where
    empty_either : (b : Bool) → (if b then some [] else lookup p d) ≡ some []
    empty_either true = refl
    empty_either false = e

add_policies-start :
    (p : Str) (policies : List Str) (d : Results)
    → any (str_eq p) policies ≡ true
    → lookup p (add_policies policies d) ≡ some []
unfolding add_policies
add_policies-start p [] d e = absurd (cc)
add_policies-start p (q ∷ policies) d e = elim (Bool-cases (str_eq p q)) [
  | inl here ↦
      add_policies-lookup p policies (insert q [] d) (lookup-insert p q [] d ∙ (rw here refl))
  | inr there ↦ add_policies-start p policies (insert q [] d) (rw there at e)
]

-- The measurements of the repeats.
module _ (m : ℕ → Str → Measured) where
  run_of : ℕ → Str → Result Measured
  run_of rep policy = ok (m rep policy)

  run_policies-other :
      (rep : ℕ) (p : Str) (policies : List Str) (d : Results)
      → All (λ q. str_eq p q ≡ false) policies
      → Present policies d
      → (d' : Results) × (run_policies (run_of rep) policies d ≡ ok d')
        × (lookup p d' ≡ lookup p d)
        × ((q : Str) → has_key q d' ≡ has_key q d)
  unfolding run_policies run_of append_to
  run_policies-other rep p [] d h a = (d, refl, refl, λ q. refl)
  run_policies-other rep p (q ∷ policies) d h a =
      let d₁ = append_result q (m rep q) d in
      let keys : (r : Str) → has_key r d₁ ≡ has_key r d =
        λ r. has_key-append_result q r (m rep q) d in
      let (d', e, l, same) =
        run_policies-other rep p policies d₁ h.1 (Present-same policies d d₁ keys a.1) in
      (d', rw a.0 e, l ∙ append_result-other p q (m rep q) d h.0, λ r. same r ∙ keys r)

  run_policies-one :
      (rep : ℕ) (p : Str) (policies : List Str) (d : Results) (runs : List Measured)
      → TextsDistinct policies
      → Present policies d
      → any (str_eq p) policies ≡ true
      → lookup p d ≡ some runs
      → (d' : Results) × (run_policies (run_of rep) policies d ≡ ok d')
        × (lookup p d' ≡ some (runs ++ (m rep p ∷ [])))
        × ((q : Str) → has_key q d' ≡ has_key q d)
  unfolding run_policies run_of append_to
  run_policies-one rep p [] d runs h a e l = absurd (cc)
  run_policies-one rep p (q ∷ policies) d runs h a e l =
      let d₁ = append_result q (m rep q) d in
      let keys : (r : Str) → has_key r d₁ ≡ has_key r d =
        λ r. has_key-append_result q r (m rep q) d in
      let still = Present-same policies d d₁ keys a.1 in
      elim (Bool-cases (str_eq p q)) [
        | inl here ↦
            (let same : p ≡ q = str_eq-eq p q here in
              let (d', e', l', kept) = run_policies-other rep p policies d₁ (rw same h.0) still in
              (
                d',
                rw a.0 e',
                l' ∙ (rw (sym same) (append_result-here p (m rep p) d runs l)),
                λ r. kept r ∙ keys r,
              ))
        | inr there ↦
            (let (d', e', l', kept) =
                run_policies-one rep p policies d₁ runs h.1 still (rw there at e)
                  (append_result-other p q (m rep q) d there ∙ l) in
              (d', rw a.0 e', l', λ r. kept r ∙ keys r))
      ]

  run_repeats-lookup :
      (p : Str) (policies : List Str) (n rep : ℕ) (d : Results) (runs : List Measured)
      → TextsDistinct policies
      → Present policies d
      → any (str_eq p) policies ≡ true
      → lookup p d ≡ some runs
      → (d' : Results) × (run_repeats run_of policies n rep d ≡ ok d')
        × (lookup p d' ≡ some (runs ++ map (λ r. m r p) (range_from n rep)))
  unfolding run_repeats
  run_repeats-lookup p policies zero rep d runs h a e l =
      (d, refl, l ∙ ap some (sym (append-nil runs)))
  run_repeats-lookup p policies (suc n) rep d runs h a e l =
      let (d', e', l', kept) = run_policies-one rep p policies d runs h a e l in
      let (d'', e'', l'') =
        run_repeats-lookup p policies n (suc rep) d' _ h (Present-same policies d d' kept a) e l' in
      (d'', (rw e' e''), l'' ∙ ap some (append_assoc runs (m rep p ∷ []) _))

  middle_run :
      (p : Str) (n : ℕ)
      → 0 < n
      → middle_share (map (λ r. m r p) (range_from n 0)) ≡ ok (m (n / 2) p).share
  unfolding middle_share
  middle_run p n h =
      rw
        (
          length-map (λ r. m r p) (range_from n 0),
          length-range_from n 0,
          get_elem?-range_from (λ r. m r p) n 0 (n / 2) (n / 2) (omega arith) (omega arith),
        )
        refl

-- For policies that differ, whatever the runs measure: the results of each hold its measurements in
-- the order of the repeats, and the last column of the report is the one that was measured in the
-- repeat of half their number, not a median over the repeats. There is one repeat at least.
pub measure_repeats-share :
    (m : ℕ → Str → Measured) (policies : List Str) (repeats : ℕ) (p : Str)
    → TextsDistinct policies
    → any (str_eq p) policies ≡ true
    → 0 < repeats
    → (d : Results) × (measure_repeats (λ rep policy. ok (m rep policy)) policies repeats ≡ ok d)
      × (lookup p d ≡ some (map (λ rep. m rep p) (range_from repeats 0)))
      × (middle_share (map (λ rep. m rep p) (range_from repeats 0)) ≡ ok (m (repeats / 2) p).share)
unfolding measure_repeats run_of
measure_repeats-share m policies repeats p h e n =
    let (d, r, l) =
      run_repeats-lookup m p policies repeats 0 (add_policies policies []) [] h
        (Present-add_policies policies []) e (add_policies-start p policies [] e) in
    (d, r, l, middle_run m p repeats n)
