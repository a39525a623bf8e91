-- ===== src/RealEngine/Workload/Distinct.antt =====
-- No two of the prompts are the same.
use mathlib.Core.List.{append_cancel_left, append_assoc}
use radixgates.Base.{
  ℕ, ◌==◌, ◌≡◌, ap, sym, ◌∙◌, List, [], ◌∷◌, ◌++◌, Str, lit, true, false, arith, map, range_from,
  split_on,
}
use radixgates.Base.Strip.{Without, split_on-piece}
use radixgates.Base.Decimal.{show_ℕ}
use radixgates.Hardware.{is_digit}
use radixgates.Hardware.Lines.{show_ℕ-injective, Digits-Without, show_ℕ-Digits}
use radixgates.RealEngine.Workload.{schema_prompt, table, column, join}

no_underscore : (n : ℕ) → Without (λ c. c == 95) (show_ℕ n)
no_underscore n = Digits-Without (λ c. c == 95) (show_ℕ n) digit-underscore (show_ℕ-Digits n)
  where
    digit-underscore : (c : ℕ) → is_digit c ≡ true → (c == 95) ≡ false
    digit-underscore c h = ground arith

-- the text before the index
abbrev opening : Str
opening =
    lit
      "You translate questions into SQL for the following schema. Answer with one SQL statement only."
    ++ (10 ∷ lit "CREATE TABLE department")

regroup :
    (a b s t n o cols e r : Str)
    → a ++ (10 ∷ (b ++ s ++ t ++ n ++ o ++ cols ++ e ++ r))
      ≡ (a ++ (10 ∷ b)) ++ (s ++ (t ++ (n ++ (o ++ (cols ++ (e ++ r))))))
regroup a b s t n o cols e r = simp append_assoc

schema_prompt-opening :
    (pid : ℕ) → (rest : Str) × (schema_prompt pid ≡ opening ++ (show_ℕ pid ++ (95 ∷ rest)))
unfolding schema_prompt
schema_prompt-opening pid = (
  _,
  regroup
      (lit
        "You translate questions into SQL for the following schema. Answer with one SQL statement only.")
      (lit "CREATE TABLE department") (show_ℕ pid) (lit "_table") (show_ℕ 0) (lit " (")
      (join (lit ", ") (map (column pid 0) (range_from 8 0))) (lit ");")
      ((10 ∷ []) ++ join (10 ∷ []) (map (table pid) (range_from 11 1))),
)

-- Two indices with the same prompt are equal: the schemas are distinct.
schema_prompt-injective : (i j : ℕ) → schema_prompt i ≡ schema_prompt j → i ≡ j
schema_prompt-injective i j e =
    let (r, p) = schema_prompt-opening i in
    let (s, q) = schema_prompt-opening j in
    let same =
      append_cancel_left opening (show_ℕ i ++ (95 ∷ r)) (show_ℕ j ++ (95 ∷ s)) (sym p ∙ e ∙ q) in
    show_ℕ-injective i j (
      first (
        sym (split_on-piece 95 (show_ℕ i) r (no_underscore i))
        ∙ ap (split_on 95) same
        ∙ split_on-piece 95 (show_ℕ j) s (no_underscore j)))
  where
    first : {a b : Str} {l m : List Str} → a ∷ l ≡ b ∷ m → a ≡ b
    first h = cc
