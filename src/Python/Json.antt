-- ===== src/Python/Json.antt =====
-- Decoded JSON: Python's None, bool, int, float, str, list and dict, with the subscripts and the
-- truth test that the scripts apply to them.
use radixgates.Base.{Bool, true, false, not, [], ◌∷◌, Option, none, some}
use radixgates.Base.{Str, str_eq, is_empty, if◌then◌else◌}
use radixgates.Base.Int.{ℤ, pos, eqb_ℤ}
use radixgates.Python.Errors.{key_error, index_error, type_error, attribute_error}
use radixgates.Python.Errors.{Result, ok, raise}

-- `float m e` is m * 10^e.
mutual
  pub data Json : Type 0 where
    null : Json
    bool : Bool → Json
    int : ℤ → Json
    float : ℤ → ℤ → Json
    str : Str → Json
    arr : Items → Json
    obj : Fields → Json

  pub data Items : Type 0 where
    nil : Items
    cons : Json → Items → Items

  pub data Fields : Type 0 where
    end : Fields
    field : Str → Json → Fields → Fields

-- `bytes.decode()` and `json.loads`; `none` is a UnicodeDecodeError, and a JSONDecodeError.
pub record Codec : Type 0 where
  pub decode : Str → Option Str
  pub loads : Str → Option Json

-- `bool(v)`
abbrev pub truthy : Json → Bool
truthy null = false
truthy (bool b) = b
truthy (int n) = not (eqb_ℤ n (pos 0))
truthy (float m e) = not (eqb_ℤ m (pos 0))
truthy (str s) = not (is_empty s)
truthy (arr nil) = false
truthy (arr (cons v vs)) = true
truthy (obj end) = false
truthy (obj (field k v fs)) = true

abbrev pub find_field : Str → Fields → Option Json
find_field k end = none
find_field k (field j v fs) = if str_eq k j then some v else find_field k fs

-- `v[k]` for a text `k`
unfoldable pub by_key : Json → Str → Result Json
by_key (obj fs) k = elim (find_field k fs) [ none ↦ raise key_error | some v ↦ ok v ]
by_key v k = raise type_error

-- `v[0]`
unfoldable pub first_item : Json → Result Json
first_item (arr nil) = raise index_error
first_item (arr (cons v vs)) = ok v
first_item (str []) = raise index_error
first_item (str (c ∷ s)) = ok (str (c ∷ []))
first_item (obj fs) = raise key_error
first_item v = raise type_error

-- `v.get(k, d)`
unfoldable pub get : Json → Str → Json → Result Json
get (obj fs) k d = elim (find_field k fs) [ none ↦ ok d | some v ↦ ok v ]
get v k d = raise attribute_error

-- `v or ""`
unfoldable pub or_empty : Json → Json
or_empty v = if truthy v then v else str []
