-- ===== src/Python/Catch.antt =====
-- Which exceptions the steps over decoded JSON can raise: all of them are caught by
-- `except Exception`.
use radixgates.Base.{◌≡◌, refl, true, [], ◌∷◌, Option, none, some}
use radixgates.Base.{Str}
use radixgates.Base.{Option-cases, inl, inr}
use radixgates.Python.{Exc, Result, ok, raise, ◌>>=◌, or_raise}
use radixgates.Python.{is_exception}
use radixgates.Python.Json.{Json, str, arr, obj, nil, cons}
use radixgates.Python.Json.{by_key, first_item, get, find_field}

-- Every exception that the result may hold is one that `except Exception` catches.
abbrev pub Catchable : {A : Type 0} → Result A → Type 0
Catchable (ok a) = Unit
Catchable (raise e) = is_exception e ≡ true

pub >>=-Catchable :
    {A B : Type 0} (m : Result A) (f : A → Result B)
    → Catchable m
    → ((a : A) → Catchable (f a))
    → Catchable (m >>= f)
>>=-Catchable (ok a) f h k = k a
>>=-Catchable (raise e) f h k = h

pub or_raise-Catchable :
    {A : Type 0} (o : Option A) (e : Exc) → is_exception e ≡ true → Catchable (or_raise o e)
or_raise-Catchable none e h = h
or_raise-Catchable (some a) e h = tt

pub by_key-Catchable : (v : Json) (k : Str) → Catchable (by_key v k)
unfolding by_key
by_key-Catchable (obj fs) k = elim (Option-cases (find_field k fs)) [
  | inl e ↦ rw (e, by_key) refl
  | inr (v, e) ↦ rw (e, by_key) tt
]
by_key-Catchable _ k = refl

pub get-Catchable : (v : Json) (k : Str) (d : Json) → Catchable (get v k d)
unfolding get
get-Catchable (obj fs) k d = elim (Option-cases (find_field k fs)) [
  | inl e ↦ rw (e, get) tt
  | inr (v, e) ↦ rw (e, get) tt
]
get-Catchable _ k d = refl

pub first_item-Catchable : (v : Json) → Catchable (first_item v)
unfolding first_item
first_item-Catchable (arr nil) = refl
first_item-Catchable (arr (cons v vs)) = tt
first_item-Catchable (str []) = refl
first_item-Catchable (str (c ∷ s)) = tt
first_item-Catchable (obj fs) = refl
first_item-Catchable _ = refl
