-- ===== src/Stats/Order.antt =====
-- `sorted` ascends, keeps what is counted, and forgets the order in which the data came.
use mathlib.Core.List.{Permᴰ}
use radixgates.Base.{suc, ◌≡◌, refl, sym, ap, ap₂, ◌∙◌, Bool, List, [], ◌∷◌}
use radixgates.Base.{arith, All, length, count_if, Bool-cases, inl, inr, Perm}
use radixgates.Base.{∥∥₁_elim}
use radixgates.Base.Int.{ℤ, ◌≤ℤ◌, leb_ℤ, eq_of_parts, ℤ-set}
use radixgates.Stats.{insert, sorted}

abbrev pub IsSorted : List ℤ → Type 0
IsSorted [] = Unit
IsSorted (x ∷ xs) = All (λ y. x ≤ℤ y) xs × IsSorted xs

All-trans : (x y : ℤ) (ys : List ℤ) → x ≤ℤ y → All (λ z. y ≤ℤ z) ys → All (λ z. x ≤ℤ z) ys
All-trans x y [] h a = tt
All-trans x y (z ∷ ys) h a = (omega arith, All-trans x y ys h a.1)

All-insert : (P : ℤ → Type 0) (x : ℤ) (ys : List ℤ) → P x → All P ys → All P (insert x ys)
unfolding insert
All-insert P x [] px a = (px, tt)
All-insert P x (y ∷ ys) px a = elim (Bool-cases (leb_ℤ x y)) [
  | inl e ↦ rw e (px, a)
  | inr e ↦ rw e (a.0, All-insert P x ys px a.1)
]

insert-IsSorted : (x : ℤ) (ys : List ℤ) → IsSorted ys → IsSorted (insert x ys)
unfolding insert
insert-IsSorted x [] s = (tt, tt)
insert-IsSorted x (y ∷ ys) s = elim (Bool-cases (leb_ℤ x y)) [
  | inl e ↦ rw e ((ground arith, All-trans x y ys (ground arith) s.0), s)
  | inr e ↦ rw e (All-insert (λ z. y ≤ℤ z) x ys (ground arith) s.0, insert-IsSorted x ys s.1)
]

pub sorted-IsSorted : (xs : List ℤ) → IsSorted (sorted xs)
unfolding sorted
sorted-IsSorted [] = tt
sorted-IsSorted (x ∷ xs) = insert-IsSorted x (sorted xs) (sorted-IsSorted xs)

count_if-insert :
    (p : ℤ → Bool) (x : ℤ) (ys : List ℤ) → count_if p (insert x ys) ≡ count_if p (x ∷ ys)
unfolding insert
count_if-insert p x [] = refl
count_if-insert p x (y ∷ ys) = ground (arith, count_if-insert p x ys)

-- sorting changes no count
pub count_if-sorted : (p : ℤ → Bool) (xs : List ℤ) → count_if p (sorted xs) ≡ count_if p xs
unfolding sorted
count_if-sorted p [] = refl
count_if-sorted p (x ∷ xs) = ground (arith, count_if-insert p x (sorted xs), count_if-sorted p xs)

length-insert : (x : ℤ) (ys : List ℤ) → length (insert x ys) ≡ suc (length ys)
unfolding insert
length-insert x [] = refl
length-insert x (y ∷ ys) = ground (arith, length-insert x ys)

pub length-sorted : (xs : List ℤ) → length (sorted xs) ≡ length xs
unfolding sorted
length-sorted [] = refl
length-sorted (x ∷ xs) = omega (arith, length-insert x (sorted xs), length-sorted xs)

insert_comm : (x y : ℤ) (l : List ℤ) → insert x (insert y l) ≡ insert y (insert x l)
unfolding insert
insert_comm x y [] = ground (arith, eq_of_parts x y)
insert_comm x y (z ∷ l) = ground (arith, eq_of_parts x y, insert_comm x y l)

sorted_permᴰ : {l m : List ℤ} → Permᴰ l m → sorted l ≡ sorted m
unfolding sorted
sorted_permᴰ Permᴰ.nil = refl
sorted_permᴰ (Permᴰ.cons e d) = ap₂ insert e (sorted_permᴰ d)
sorted_permᴰ (Permᴰ.swap {a = a} {b = b} {l = l} e f) =
    insert_comm a b (sorted l) ∙ ap₂ (λ u v. insert u (insert v (sorted l))) f e
sorted_permᴰ (Permᴰ.trans d e) = sorted_permᴰ d ∙ sorted_permᴰ e

List-set : IsSet (List ℤ)
List-set = hlevel ℤ-set

-- The result depends only on the values, not on their order.
pub sorted_perm : (l m : List ℤ) → Perm l m → sorted l ≡ sorted m
sorted_perm l m p = ∥∥₁_elim p (List-set _ _) sorted_permᴰ

pub length_perm : (l m : List ℤ) → Perm l m → length l ≡ length m
length_perm l m p = sym (length-sorted l) ∙ ap length (sorted_perm l m p) ∙ length-sorted m
