-- ===== src/Demos/Prefix/Times.antt =====
-- The dict of times of a round, and membership in the order of completion.
use mathlib.Core.List.{append_cancel_left, append_assoc}
use mathlib.Core.Path.{subst}
use radixgates.Base.{
  ℕ, ◌==◌, ◌≡◌, refl, ap, sym, ◌∙◌, List, [], ◌∷◌, ◌++◌, Str, lit, str_eq, some, Bool, true, false,
  all, any, All, arith, Bool-cases, inl, inr,
}
use radixgates.Base.Int.{ℤ}
use radixgates.Base.Dict.{Dict, lookup, insert, lookup-insert, str_eq-eq, str_eq_refl}
use radixgates.Base.Decimal.{show_ℕ}
use radixgates.Python.{ok, ◌>>=◌}
use radixgates.Python.Json.{Codec}
use radixgates.Hardware.Lines.{show_ℕ-injective}
use radixgates.Demos.Prefix.{Service, send, label, round}

pub label-injective : (i j : ℕ) → label i ≡ label j → i ≡ j
unfolding label
label-injective i j e =
    show_ℕ-injective i j (append_cancel_left (lit "prefix-") (show_ℕ i) (show_ℕ j) e)

abbrev pub is_in : ℕ → List ℕ → Bool
is_in i = any (λ j. i == j)

module _ (t : ℕ → ℤ) where
  -- the dict of a round whose i-th request takes `t i`
  unfoldable pub times_of : List ℕ → Dict ℤ → Dict ℤ
  times_of [] d = d
  times_of (i ∷ order) d = times_of order (insert (label i) (t i) d)

  pub round-times_of :
      (c : Codec) (serve : Service) (order : List ℕ) (d : Dict ℤ)
      → All (λ i. send c serve i ≡ ok (t i)) order
      → round c serve order d ≡ ok (times_of order d)
  unfolding round times_of
  round-times_of c serve [] d h = refl
  round-times_of c serve (i ∷ order) d h =
      ap (λ m. m >>= λ v. round c serve order (insert (label i) v d)) h.0
      ∙ round-times_of c serve order (insert (label i) (t i) d) h.1

  insert-kept :
      (i j : ℕ) (d : Dict ℤ)
      → lookup (label i) d ≡ some (t i)
      → lookup (label i) (insert (label j) (t j) d) ≡ some (t i)
  insert-kept i j d h = elim (Bool-cases (str_eq (label i) (label j))) [
    | inl e ↦
        lookup-insert (label i) (label j) (t j) d
        ∙ rw e (ap (λ k. some (t k)) (sym (label-injective i j (str_eq-eq (label i) (label j) e))))
    | inr e ↦ lookup-insert (label i) (label j) (t j) d ∙ rw e h
  ]

  times_of-kept :
      (i : ℕ) (order : List ℕ) (d : Dict ℤ)
      → lookup (label i) d ≡ some (t i)
      → lookup (label i) (times_of order d) ≡ some (t i)
  unfolding times_of
  times_of-kept i [] d h = h
  times_of-kept i (j ∷ order) d h =
      times_of-kept i order (insert (label j) (t j) d) (insert-kept i j d h)

  pub times_of-lookup :
      (i : ℕ) (order : List ℕ) (d : Dict ℤ)
      → is_in i order ≡ true
      → lookup (label i) (times_of order d) ≡ some (t i)
  unfolding times_of
  times_of-lookup i [] d h = absurd (cc)
  times_of-lookup i (j ∷ order) d h = elim (Bool-cases (i == j)) [
    | inl e ↦
        let same : i ≡ j = ground arith in
        times_of-kept i order (insert (label j) (t j) d)
          (lookup-insert (label i) (label j) (t j) d ∙ rw same (rw (str_eq_refl (label j)) refl))
    | inr e ↦ times_of-lookup i order (insert (label j) (t j) d) (rw e at h)
  ]

  -- an entry of such a dict
  abbrev pub IsEntry : List ℕ → Str × ℤ → Type 0
  IsEntry order e = (i : ℕ) × (is_in i order ≡ true) × (e.0 ≡ label i) × (e.1 ≡ t i)

  insert-All :
      (P : Str × ℤ → Type 0) (k : Str) (v : ℤ) (d : Dict ℤ)
      → P (k, v)
      → All P d
      → All P (insert k v d)
  insert-All P k v [] p h = (p, tt)
  insert-All P k v ((j, w) ∷ d) p h = elim (Bool-cases (str_eq k j)) [
    | inl e ↦ rw e (subst (λ (s : Str). P (s, v)) (str_eq-eq k j e) p, h.1)
    | inr e ↦ rw e (h.0, insert-All P k v d p h.1)
  ]

  pub times_of-All :
      (order all_of_them : List ℕ) (d : Dict ℤ)
      → All (λ i. is_in i all_of_them ≡ true) order
      → All (IsEntry all_of_them) d
      → All (IsEntry all_of_them) (times_of order d)
  unfolding times_of
  times_of-All [] l d h a = a
  times_of-All (i ∷ order) l d h a =
      times_of-All order l (insert (label i) (t i) d) h.1
        (insert-All (IsEntry l) (label i) (t i) d (i, h.0, refl, refl) a)

pub is_in-append : (front order : List ℕ) → All (λ i. is_in i (front ++ order) ≡ true) order
is_in-append front [] = tt
is_in-append front (i ∷ order) = (
  is_in-middle front,
  subst (λ (l : List ℕ). All (λ j. is_in j l ≡ true) order) (append_assoc front (i ∷ []) order)
      (is_in-append (front ++ (i ∷ [])) order),
)
  where
    is_in-middle : (f : List ℕ) → is_in i (f ++ (i ∷ order)) ≡ true
    is_in-middle [] = ground arith
    is_in-middle (j ∷ f) = ground (arith, is_in-middle f)

pub All-is_in : (P : ℕ → Type 0) (l : List ℕ) (i : ℕ) → All P l → is_in i l ≡ true → P i
All-is_in P [] i h e = absurd (cc)
All-is_in P (j ∷ l) i h e = elim (Bool-cases (i == j)) [
  | inl same ↦ let equal : j ≡ i = ground arith in subst P equal h.0
  | inr other ↦ All-is_in P l i h.1 (rw other at e)
]

pub all-true : (p : ℕ → Bool) (l : List ℕ) → all p l ≡ true → All (λ i. p i ≡ true) l
all-true p [] h = tt
all-true p (i ∷ l) h = elim (Bool-cases (p i)) [
  | inl e ↦ (e, all-true p l (rw e at h))
  | inr e ↦ absurd (no (rw e at h))
]
  where
    no : false ≡ true → ⊥
    no e = cc

pub all-false :
    (p : ℕ → Bool) (l : List ℕ) → all p l ≡ false → (i : ℕ) × (is_in i l ≡ true) × (p i ≡ false)
all-false p [] h = absurd (cc)
all-false p (i ∷ l) h = elim (Bool-cases (p i)) [
  | inl e ↦ let (j, member, slow) = all-false p l (rw e at h) in (j, further j member, slow)
  | inr e ↦ (i, here i, e)
]
  where
    here : (j : ℕ) → is_in j (j ∷ l) ≡ true
    here j = ground arith

    further : (j : ℕ) → is_in j l ≡ true → is_in j (i ∷ l) ≡ true
    further j e = ground arith
