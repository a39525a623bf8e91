-- ===== src/LongContext/Contexts/Fresh.antt =====
-- What the context of one request has in common with that of another run or size.
use radixgates.Base.{
  ℕ, ◌+◌, ◌≤◌, ◌≡◌, refl, sym, ◌∙◌, ap₂, List, [], ◌∷◌, ◌++◌, Str, lit, false, any, ◌==◌, length,
  arith,
}
use radixgates.LongContext.Contexts.{run_id, ctx_unique}

-- the text has no such character
abbrev pub Lacks : ℕ → Str → Type 0
Lacks sep s = any (λ c. c == sep) s ≡ false

head_eq : {A : Type 0} {x y : A} {xs ys : List A} → x ∷ xs ≡ y ∷ ys → x ≡ y
head_eq e = cc

tail_eq : {A : Type 0} {x y : A} {xs ys : List A} → x ∷ xs ≡ y ∷ ys → xs ≡ ys
tail_eq e = cc

Lacks-tail : (sep c : ℕ) (s : Str) → Lacks sep (c ∷ s) → Lacks sep s
Lacks-tail sep c s h = ground arith

Lacks-head : (sep c : ℕ) (s : Str) → Lacks sep (c ∷ s) → c ≡ sep → ⊥
Lacks-head sep c s h e = ground arith

-- What two texts with different parts before a separator have in common ends within the first part.
shared :
    (sep : ℕ) (p q r s u v w : Str)
    → Lacks sep p
    → Lacks sep q
    → (p ≡ q → ⊥)
    → p ++ (sep ∷ r) ≡ u ++ v
    → q ++ (sep ∷ s) ≡ u ++ w
    → length u ≤ length p
shared sep p q r s [] v w hp hq ne e f = omega arith
shared sep [] [] r s (c ∷ u) v w hp hq ne e f = absurd (ne refl)
shared sep [] (b ∷ q) r s (c ∷ u) v w hp hq ne e f =
    absurd (Lacks-head sep b q hq (head_eq f ∙ sym (head_eq e)))
shared sep (a ∷ p) [] r s (c ∷ u) v w hp hq ne e f =
    absurd (Lacks-head sep a p hp (head_eq e ∙ sym (head_eq f)))
shared sep (a ∷ p) (b ∷ q) r s (c ∷ u) v w hp hq ne e f =
    let before =
      shared sep p q r s u v w (Lacks-tail sep a p hp) (Lacks-tail sep b q hq)
        (λ same. ne (ap₂ (λ x y. x ∷ y) (head_eq e ∙ sym (head_eq f)) same)) (tail_eq e)
        (tail_eq f) in
    omega (arith, before)

after_same :
    (pre p q u v w : Str) (n : ℕ)
    → ((u' : Str) → p ≡ u' ++ v → q ≡ u' ++ w → length u' ≤ n)
    → pre ++ p ≡ u ++ v
    → pre ++ q ≡ u ++ w
    → length u ≤ length pre + n
after_same [] p q u v w n h e f = let m = h u e f in omega (arith, m)
after_same (c ∷ pre) p q [] v w n h e f = omega arith
after_same (c ∷ pre) p q (d ∷ u) v w n h e f =
    let m = after_same pre p q u v w n h (tail_eq e) (tail_eq f) in omega (arith, m)

-- The parts before and after the first separator.
parts :
    (sep : ℕ) (p q r s : Str)
    → Lacks sep p
    → Lacks sep q
    → p ++ (sep ∷ r) ≡ q ++ (sep ∷ s)
    → (p ≡ q) × (r ≡ s)
parts sep [] [] r s hp hq e = (refl, tail_eq e)
parts sep [] (b ∷ q) r s hp hq e = absurd (Lacks-head sep b q hq (sym (head_eq e)))
parts sep (a ∷ p) [] r s hp hq e = absurd (Lacks-head sep a p hp (head_eq e))
parts sep (a ∷ p) (b ∷ q) r s hp hq e =
    let (same, rest) =
      parts sep p q r s (Lacks-tail sep a p hp) (Lacks-tail sep b q hq) (tail_eq e) in
    (ap₂ (λ x y. x ∷ y) (head_eq e) same, rest)

-- What the contexts of two requests have in common from the start on ends within the first line,
-- before the document, if their labels differ or their times do: so no request before, of another
-- run or size, puts the document into the cache for a cold one. No label has "_" in it and no label
-- and no time a space.
pub ctx_unique_fresh :
    (l l' t t' c c' u v v' : Str)
    → Lacks 95 l
    → Lacks 95 l'
    → Lacks 32 (l ++ (95 ∷ t))
    → Lacks 32 (l' ++ (95 ∷ t'))
    → ((l ≡ l') × (t ≡ t') → ⊥)
    → ctx_unique l t c ≡ u ++ v
    → ctx_unique l' t' c' ≡ u ++ v'
    → length u ≤ length (run_id l t)
unfolding ctx_unique
ctx_unique_fresh l l' t t' c c' u v v' hl hl' hs hs' ne e f =
    let differ : l ++ (95 ∷ t) ≡ l' ++ (95 ∷ t') → ⊥ =
      λ same. ne (parts 95 l l' t t' hl hl' same) in
    let m =
      after_same (lit "Unique_Run_ID: ") ((l ++ (95 ∷ t)) ++ (32 ∷ 10 ∷ c))
        ((l' ++ (95 ∷ t')) ++ (32 ∷ 10 ∷ c')) u v v' (length (l ++ (95 ∷ t)))
        (λ u' e' f'.
          shared 32 (l ++ (95 ∷ t)) (l' ++ (95 ∷ t')) (10 ∷ c) (10 ∷ c') u' v v' hs hs' differ e'
            f')
        e f in
    omega (arith, m)
