-- ===== src/RealEngine/Report/Keys.antt =====
-- The policies that the results of an experiment are kept for.
use radixgates.Base.{
  All-map, ◌≡◌, refl, ◌∙◌, true, Bool-cases, inl, inr, List, [], ◌∷◌, some, Str, str_eq, All,
}
use radixgates.Base.Dict.{has_key, str_eq_refl, lookup, insert, lookup-insert}
use radixgates.RealEngine.Report.{Measured, Results, add_policies, append_result}

has_key-lookup :
    (p : Str) (d : Results) (runs : List Measured) → lookup p d ≡ some runs → has_key p d ≡ true
has_key-lookup p d runs e = rw (has_key, e) refl

pub has_key-append_result :
    (p q : Str) (s : Measured) (d : Results) → has_key q (append_result p s d) ≡ has_key q d
unfolding append_result
has_key-append_result p q s [] = refl
has_key-append_result p q s ((r, runs) ∷ d) = elim (Bool-cases (str_eq p r)) [
  | inl e ↦ elim (Bool-cases (str_eq q r)) [
    | inl f ↦ rw (e, has_key, f) refl
    | inr f ↦ rw (e, has_key, f) refl
  ]
  | inr e ↦ elim (Bool-cases (str_eq q r)) [
    | inl f ↦ rw (e, has_key, f) refl
    | inr f ↦ rw (e, has_key, f) (has_key-append_result p q s d)
  ]
]

-- All policies are in the results.
abbrev pub Present : List Str → Results → Type 0
Present policies d = All (λ q. has_key q d ≡ true) policies

pub Present-same :
    (policies : List Str) (d d' : Results)
    → ((q : Str) → has_key q d' ≡ has_key q d)
    → Present policies d
    → Present policies d'
Present-same policies d d' same = All-map _ _ policies (λ q e. same q ∙ e)

has_key-insert_same : (p : Str) (d : Results) → has_key p (insert p [] d) ≡ true
has_key-insert_same p d =
    has_key-lookup p (insert p [] d) [] (lookup-insert p p [] d ∙ (rw (str_eq_refl p) refl))

has_key-insert : (p q : Str) (d : Results) → has_key q d ≡ true → has_key q (insert p [] d) ≡ true
has_key-insert p q d e = elim (Bool-cases (str_eq q p)) [
  | inl f ↦ has_key-lookup q (insert p [] d) [] (lookup-insert q p [] d ∙ (rw f refl))
  | inr f ↦ rw (has_key, lookup-insert q p [] d, f) e
]

has_key-add_policies :
    (q : Str) (policies : List Str) (d : Results)
    → has_key q d ≡ true
    → has_key q (add_policies policies d) ≡ true
unfolding add_policies
has_key-add_policies q [] d e = e
has_key-add_policies q (p ∷ policies) d e =
    has_key-add_policies q policies (insert p [] d) (has_key-insert p q d e)

pub Present-add_policies :
    (policies : List Str) (d : Results) → Present policies (add_policies policies d)
unfolding add_policies
Present-add_policies [] d = tt
Present-add_policies (p ∷ policies) d = (
  has_key-add_policies p policies (insert p [] d) (has_key-insert_same p d),
  Present-add_policies policies (insert p [] d),
)
