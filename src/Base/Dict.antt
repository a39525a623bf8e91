-- ===== src/Base/Dict.antt =====
-- Python dicts with `str` keys, in insertion order.
use radixgates.Base.Lists.{All, All-get_elem?, get_elem?}
use Prim.Native.Nat.{ℕ, zero, suc}
use radixgates.Base.Tests.{if◌then◌else◌}
use radixgates.Base.Text.{Str, str_eq}
use mathlib.Core.Path.{◌≡◌, refl, ap}
use mathlib.Core.Logic.{◌↔◌}
use mathlib.Core.Bool.{Bool, true, false}
use mathlib.Core.Option.{Option, none, some, some-injective}
use mathlib.Core.List.{List, [], ◌∷◌, map}
use native.Mathlib.Omega.{arith}

pub str_eq-eq : (s t : Str) → str_eq s t ≡ true → s ≡ t
str_eq-eq [] [] h = refl
str_eq-eq [] (d ∷ t) h = cc
str_eq-eq (c ∷ s) [] h = cc
str_eq-eq (c ∷ s) (d ∷ t) h = ground (arith, str_eq-eq s t)

pub str_eq_refl : (s : Str) → str_eq s s ≡ true
str_eq_refl [] = refl
str_eq_refl (c ∷ s) = ground (arith, str_eq_refl s)

pub str_eq_iff : (s t : Str) → (str_eq s t ≡ true) ↔ (s ≡ t)
str_eq_iff s t = (str_eq-eq s t, λ e. rw e (str_eq_refl t))

pub str_eq_comm : (s t : Str) → str_eq s t ≡ str_eq t s
str_eq_comm [] [] = refl
str_eq_comm [] (d ∷ t) = refl
str_eq_comm (c ∷ s) [] = refl
str_eq_comm (c ∷ s) (d ∷ t) = ground (arith, str_eq_comm s t)

abbrev pub Dict {ℓ} : Type ℓ → Type ℓ
Dict V = List (Str × V)

module _ {ℓ} {V : Type ℓ} where
  abbrev pub lookup : Str → Dict V → Option V
  lookup k [] = none
  lookup k ((j, v) ∷ d) = if str_eq k j then some v else lookup k d

  -- `d[k] = v`
  abbrev pub insert : Str → V → Dict V → Dict V
  insert k v [] = (k, v) ∷ []
  insert k v ((j, w) ∷ d) = if str_eq k j then (j, v) ∷ d else (j, w) ∷ insert k v d

  -- `k in d`
  abbrev pub has_key : Str → Dict V → Bool
  has_key k d = elim (lookup k d) [ none ↦ false | some _ ↦ true ]

  pub lookup-insert :
      (j k : Str) (v : V) (d : Dict V)
      → lookup j (insert k v d) ≡ (if str_eq j k then some v else lookup j d)
  lookup-insert j k v [] = refl
  lookup-insert j k v ((i, w) ∷ d) =
      ground (arith, str_eq_iff j k, str_eq_iff k i, str_eq_iff j i, lookup-insert j k v d)

-- No text occurs twice.
abbrev pub TextsDistinct : List Str → Type 0
TextsDistinct [] = Unit
TextsDistinct (s ∷ l) = All (λ t. str_eq s t ≡ false) l × TextsDistinct l

same_text : (s t : Str) → str_eq s t ≡ false → s ≡ t → ⊥
same_text s t ne e = true-ne-false ((str_eq_iff s t).1 e) ne
  where
    true-ne-false : {b : Bool} → b ≡ true → b ≡ false → ⊥
    true-ne-false p q = cc

-- In such a list equal texts stand at one place.
pub get_elem?-injective :
    (l : List Str) (i j : ℕ) (s : Str)
    → TextsDistinct l
    → get_elem? l i ≡ some s
    → get_elem? l j ≡ some s
    → i ≡ j
get_elem?-injective [] i j s d ei ej = absurd (cc)
get_elem?-injective (t ∷ l) zero zero s d ei ej = refl
get_elem?-injective (t ∷ l) zero (suc j) s d ei ej =
    absurd
      (same_text t s (All-get_elem? (λ u. str_eq t u ≡ false) l j s d.0 ej) (some-injective t s ei))
get_elem?-injective (t ∷ l) (suc i) zero s d ei ej =
    absurd
      (same_text t s (All-get_elem? (λ u. str_eq t u ≡ false) l i s d.0 ei) (some-injective t s ej))
get_elem?-injective (t ∷ l) (suc i) (suc j) s d ei ej =
    ap suc (get_elem?-injective l i j s d.1 ei ej)

module _ {V : Type 0} where
  get_elem?-keys :
      (l : List (Str × V)) (i : ℕ) (p : Str × V)
      → get_elem? l i ≡ some p
      → get_elem? (map (λ (q : Str × V). q.0) l) i ≡ some p.0
  get_elem?-keys [] i p e = absurd (cc)
  get_elem?-keys (q ∷ l) zero p e = ap (λ (o : Option (Str × V)). key? o) e
    where
      key? : Option (Str × V) → Option Str
      key? none = none
      key? (some r) = some r.0
  get_elem?-keys (q ∷ l) (suc i) p e = get_elem?-keys l i p e

  -- The same of the entries of a dict, whose keys differ.
  pub entry-injective :
      (l : List (Str × V)) (i j : ℕ) (p : Str × V)
      → TextsDistinct (map (λ (q : Str × V). q.0) l)
      → get_elem? l i ≡ some p
      → get_elem? l j ≡ some p
      → i ≡ j
  entry-injective l i j p d ei ej =
      get_elem?-injective _ i j p.0 d (get_elem?-keys l i p ei) (get_elem?-keys l j p ej)
