-- ===== src/Demos/Qa/Laws.antt =====
-- The thirty users cover every pair of a department and a question, and each is counted once.
use radixgates.Base.{
  ℕ, suc, List, [], ◌∷◌, Str, ◌%◌, ◌+◌, ◌*◌, ◌<◌, ◌≡◌, ap, some, some, arith, length,
}
use radixgates.Base.{map, get_elem?, get_elem?-All, sym, ◌∙◌, Bool-cases, inl, inr}
use radixgates.Base.Dict.{TextsDistinct, get_elem?-injective, entry-injective}
use radixgates.Python.{ok, >>=-eq-ok}
use radixgates.Python.Json.{Codec}
use radixgates.Throughput.{Service}
use radixgates.Demos.Qa.{
  department_prompts, employee_questions, department_of, question_of, simulate_employee,
  count_results,
}

-- Every user has a department and a question, so no index is out of range.
pub department_of_total : (i : ℕ) → (d : Str × Str) × (department_of i ≡ some d)
unfolding department_of
department_of_total i =
    let (d, e, _) =
      get_elem?-All (λ _. Unit {0}) department_prompts (i % 5) (omega arith) (omega arith) in
    (d, e)

pub question_of_total : (i : ℕ) → (s : Str) × (question_of i ≡ some s)
unfolding question_of
question_of_total i =
    let (s, e, _) =
      get_elem?-All (λ _. Unit {0}) employee_questions (i % 6) (omega arith) (omega arith) in
    (s, e)

names_distinct : TextsDistinct (map (λ (d : Str × Str). d.0) department_prompts)
names_distinct = ground arith

questions_distinct : TextsDistinct employee_questions
questions_distinct = ground arith

-- Among the thirty users no two of one department ask the same question.
users_distinct :
    (i j : ℕ)
    → i < 30
    → j < 30
    → department_of i ≡ department_of j
    → question_of i ≡ question_of j
    → i ≡ j
unfolding department_of question_of
users_distinct i j hi hj d q =
    let (p, ep) = department_of_total i in
    let (s, es) = question_of_total i in
    let same_5 : i % 5 ≡ j % 5 =
      entry-injective department_prompts (i % 5) (j % 5) p names_distinct ep (sym d ∙ ep) in
    let same_6 : i % 6 ≡ j % 6 =
      get_elem?-injective employee_questions (i % 6) (j % 6) s questions_distinct es (sym q ∙ es) in
    omega arith

-- Every department has a user with every question.
users_cover :
    (d q : ℕ)
    → d < 5
    → q < 6
    → (i : ℕ) × (i < 30)
      × (department_of i ≡ get_elem? department_prompts d)
      × (question_of i ≡ get_elem? employee_questions q)
unfolding department_of question_of
users_cover d q hd hq = (
  (6 * d + 25 * q) % 30,
  omega arith,
  ap (get_elem? department_prompts) (omega arith),
  ap (get_elem? employee_questions) (omega arith),
)

-- Whenever the loop over the results ends with counts, every result is counted once, as a success
-- or as a failure.
count_results_total :
    (c : Codec) (serve : Service) (order : List ℕ) (s f : ℕ) (s' f' : ℕ)
    → count_results c serve order s f ≡ ok (s', f')
    → s' + f' ≡ s + f + length order
unfolding count_results
count_results_total c serve [] s f s' f' h = ground arith
count_results_total c serve (i ∷ order) s f s' f' h =
    let ((success, message), _, h') = >>=-eq-ok (simulate_employee c serve i) _ h in
    elim (Bool-cases success) [
      | inl e ↦ omega (arith, count_results_total c serve order (suc s) f s' f' (rw e at h'))
      | inr e ↦ omega (arith, count_results_total c serve order s (suc f) s' f' (rw e at h'))
    ]
