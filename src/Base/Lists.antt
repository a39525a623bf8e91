-- ===== src/Base/Lists.antt =====
-- Python lists: measured and indexed by native numbers, under the library's names.
use Prim.Native.Nat.{ℕ, zero, suc, ◌+◌, ◌<◌}
use mathlib.Core.Path.{◌≡◌, refl, ap, subst}
use mathlib.Core.Bool.{Bool, true, false, ◌&&◌, ◌||◌}
use mathlib.Core.List.{List, [], ◌∷◌, ◌++◌, map}
use mathlib.Core.Option.{Option, none, some, none-ne-some, some-injective}
use native.Mathlib.Omega.{arith}
use radixgates.Base.Tests.{if◌then◌else◌}

module _ {ℓ} {A : Type ℓ} where
  abbrev pub length : List A → ℕ
  length [] = 0
  length (x ∷ xs) = suc (length xs)

  abbrev pub get_elem? : List A → ℕ → Option A
  get_elem? [] i = none
  get_elem? (x ∷ xs) zero = some x
  get_elem? (x ∷ xs) (suc i) = get_elem? xs i

  -- `xs[:n]` and `xs[n:]`
  abbrev pub take : ℕ → List A → List A
  take zero xs = []
  take (suc n) [] = []
  take (suc n) (x ∷ xs) = x ∷ take n xs

  abbrev pub drop : ℕ → List A → List A
  drop zero xs = xs
  drop (suc n) [] = []
  drop (suc n) (x ∷ xs) = drop n xs

  -- `[a] * n`, and `s * n` for a text of one character
  abbrev pub replicate : ℕ → A → List A
  replicate zero a = []
  replicate (suc n) a = a ∷ replicate n a

  -- `[x for x in xs if p(x)]`
  abbrev pub keep : (A → Bool) → List A → List A
  keep p [] = []
  keep p (x ∷ xs) = let rest = keep p xs in if p x then x ∷ rest else rest

  -- how many elements pass a test
  abbrev pub count_if : (A → Bool) → List A → ℕ
  count_if p [] = 0
  count_if p (x ∷ xs) = (if p x then 1 else 0) + count_if p xs

  -- `all(p(x) for x in xs)` and `any(p(x) for x in xs)`
  abbrev pub all : (A → Bool) → List A → Bool
  all p [] = true
  all p (x ∷ xs) = p x && all p xs

  abbrev pub any : (A → Bool) → List A → Bool
  any p [] = false
  any p (x ∷ xs) = p x || any p xs

  abbrev pub All {κ} : (A → Type κ) → List A → Type κ
  All P [] = Unit
  All P (x ∷ xs) = P x × All P xs

  abbrev pub is_empty : List A → Bool
  is_empty [] = true
  is_empty (x ∷ xs) = false

-- `range(n)`
abbrev pub range_from : ℕ → ℕ → List ℕ
range_from zero i = []
range_from (suc n) i = i ∷ range_from n (suc i)

module _ {ℓ} {A : Type ℓ} where
  pub length-append : (xs ys : List A) → length (xs ++ ys) ≡ length xs + length ys
  length-append [] ys = omega arith
  length-append (x ∷ xs) ys = omega (arith, length-append xs ys)

  pub length-replicate : (n : ℕ) (a : A) → length (replicate n a) ≡ n
  length-replicate zero a = refl
  length-replicate (suc n) a = ap suc (length-replicate n a)

  pub length-keep : (p : A → Bool) (xs : List A) → length (keep p xs) ≡ count_if p xs
  length-keep p [] = refl
  length-keep p (x ∷ xs) = ground (arith, length-keep p xs)

  pub All-append {κ} : (P : A → Type κ) (xs ys : List A) → All P xs → All P ys → All P (xs ++ ys)
  All-append P [] ys hx hy = hy
  All-append P (x ∷ xs) ys hx hy = (hx.0, All-append P xs ys hx.1 hy)

  pub All-map {κ ν} :
      (P : A → Type κ) (Q : A → Type ν) (xs : List A) → ((x : A) → P x → Q x) → All P xs → All Q xs
  All-map P Q [] f h = tt
  All-map P Q (x ∷ xs) f h = (f x h.0, All-map P Q xs f h.1)

  -- an index within the list finds an element, which has what all elements have
  pub get_elem?-All {κ} :
      (P : A → Type κ) (xs : List A) (i : ℕ)
      → All P xs
      → i < length xs
      → (x : A) × (get_elem? xs i ≡ some x) × P x
  get_elem?-All P [] i h lt = elim lt [ ]
  get_elem?-All P (x ∷ xs) zero h lt = (x, refl, h.0)
  get_elem?-All P (x ∷ xs) (suc i) h lt = get_elem?-All P xs i h.1 (omega arith)

  pub All-get_elem? {κ} :
      (P : A → Type κ) (l : List A) (k : ℕ) (v : A) → All P l → get_elem? l k ≡ some v → P v
  All-get_elem? P [] k v a e = absurd (none-ne-some v e)
  All-get_elem? P (x ∷ xs) zero v a e = subst P (some-injective x v e) a.0
  All-get_elem? P (x ∷ xs) (suc k) v a e = All-get_elem? P xs k v a.1 e

module _ {ℓ κ} {A : Type ℓ} {B : Type κ} (f : A → B) where
  pub length-map : (xs : List A) → length (map f xs) ≡ length xs
  length-map [] = refl
  length-map (x ∷ xs) = ap suc (length-map xs)

pub length-range_from : (n i : ℕ) → length (range_from n i) ≡ n
length-range_from zero i = refl
length-range_from (suc n) i = ap suc (length-range_from n (suc i))

-- the j-th element, which is the k-th number
pub get_elem?-range_from {ℓ} :
    {B : Type ℓ} (f : ℕ → B) (n i j k : ℕ)
    → j < n
    → k ≡ i + j
    → get_elem? (map f (range_from n i)) j ≡ some (f k)
get_elem?-range_from f zero i j k h e = absurd (omega (arith, h))
get_elem?-range_from f (suc n) i zero k h e = ap (λ x. some (f x)) (omega (arith, e))
get_elem?-range_from f (suc n) i (suc j) k h e =
    get_elem?-range_from f n (suc i) j k (omega (arith, h)) (omega (arith, e))
