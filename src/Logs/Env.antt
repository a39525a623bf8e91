-- ===== src/Logs/Env.antt =====
-- What `_load_env_file` makes of the environment.
use radixgates.Base.{
  ℕ, List, [], ◌∷◌, ◌++◌, Option, none, some, Bool, true, false, ◌≡◌, refl, ap, ◌∙◌,
}
use radixgates.Base.{
  ◌==◌, any, Str, strip, is_space, str_eq, if◌then◌else◌, arith, Bool-cases, Option-cases, inl, inr,
  All-append,
}
use radixgates.Base.Dict.{Dict, lookup, insert, has_key, lookup-insert, str_eq_iff, str_eq_refl}
use radixgates.Base.Strip.{Without, strip-Without, strip_by-Without, strip_by-around}
use radixgates.Python.{ok}
use radixgates.Logs.{
  partition_at, unquote, setting_of, apply_setting, load_line, load_lines, load_env_file,
  file_lines, equals_sign,
}

abbrev pub value_of : Str → Option (Str × Str) → Option Str
value_of k none = none
value_of k (some (key, val)) = if str_eq k key then some val else none

abbrev pub or_else : Option Str → Option Str → Option Str
or_else none o = o
or_else (some v) o = some v

-- the value that the first of the lines that set a variable gives to it
unfoldable pub first_value : Str → List Str → Option Str
first_value k [] = none
first_value k (line ∷ lines) = or_else (value_of k (setting_of (strip line))) (first_value k lines)

or_else-none : (o : Option Str) → o ≡ or_else o none
or_else-none none = refl
or_else-none (some v) = refl

or_else_assoc : (a b c : Option Str) → or_else (or_else a b) c ≡ or_else a (or_else b c)
or_else_assoc none b c = refl
or_else_assoc (some v) b c = refl

is_some : Option Str → Bool
is_some none = false
is_some (some v) = true

has_key-lookup : (key : Str) (env : Dict Str) → has_key key env ≡ is_some (lookup key env)
unfolding is_some
has_key-lookup key env = elim (Option-cases (lookup key env)) [
  | inl e ↦ rw (e, has_key) refl
  | inr (v, e) ↦ rw (e, has_key) refl
]

lookup-set :
    (k key val : Str) (env : Dict Str) (o : Option Str)
    → lookup key env ≡ o
    → lookup k (if has_key key env then env else insert key val env)
      ≡ or_else (lookup k env) (if str_eq k key then some val else none)
unfolding is_some
lookup-set k key val env none e = elim (Bool-cases (str_eq k key)) [
  | inl same ↦ rw (
    has_key-lookup key env,
    e,
    lookup-insert k key val env,
    (str_eq_iff k key).0 same,
    str_eq_refl key,
    e,
  )
  | inr other ↦
      rw (has_key-lookup key env, e, lookup-insert k key val env, other)
        (or_else-none (lookup k env))
]
lookup-set k key val env (some v) e = elim (Bool-cases (str_eq k key)) [
  | inl same ↦ rw (has_key-lookup key env, (str_eq_iff k key).0 same, str_eq_refl key, e) e
  | inr other ↦ rw (has_key-lookup key env, e, other) (or_else-none (lookup k env))
]

apply_setting-lookup :
    (k : Str) (o : Option (Str × Str)) (env : Dict Str)
    → lookup k (apply_setting o env) ≡ or_else (lookup k env) (value_of k o)
unfolding apply_setting
apply_setting-lookup k none env = or_else-none (lookup k env)
apply_setting-lookup k (some (key, val)) env = lookup-set k key val env (lookup key env) refl

load_lines-lookup :
    (k : Str) (lines : List Str) (env : Dict Str)
    → lookup k (load_lines env lines) ≡ or_else (lookup k env) (first_value k lines)
unfolding load_lines load_line first_value
load_lines-lookup k [] env = or_else-none (lookup k env)
load_lines-lookup k (line ∷ lines) env =
    load_lines-lookup k lines (load_line env line)
    ∙ ap (λ o. or_else o (first_value k lines))
        (apply_setting-lookup k (setting_of (strip line)) env)
    ∙ or_else_assoc (lookup k env) _ (first_value k lines)

-- After the .env file is loaded, a variable has the value that it had before, if it was set, and
-- otherwise the value of the first line of the file that sets it.
pub load_env_file-lookup :
    (text : Str) (env : Dict Str) (k : Str)
    → (env' : Dict Str) × (load_env_file (some (ok text)) env ≡ ok env')
      × (lookup k env' ≡ or_else (lookup k env) (first_value k (file_lines text)))
unfolding load_env_file
load_env_file-lookup text env k =
    (load_lines env (file_lines text), refl, load_lines-lookup k (file_lines text) env)

partition_at-first :
    (sep : ℕ) (key val : Str)
    → Without (λ c. c == sep) key
    → partition_at sep (key ++ (sep ∷ val)) ≡ (key, val)
unfolding partition_at
partition_at-first sep [] val h = rw (same sep)
  where
    same : (n : ℕ) → (n == n) ≡ true
    same n = ground arith
partition_at-first sep (c ∷ key) val h = rw (h.0, partition_at-first sep key val h.1)

any-append : (key val : Str) → any (λ c. c == equals_sign) (key ++ (equals_sign ∷ val)) ≡ true
any-append [] val = refl
any-append (c ∷ key) val = ground (arith, any-append key val)

-- A text with neither blanks nor quotes in it.
abbrev pub IsPlain : Str → Type 0
IsPlain s = Without is_space s × Without (λ c. c == 34) s × Without (λ c. c == 39) s

unquote-plain : (val : Str) → IsPlain val → unquote val ≡ val
unfolding unquote
unquote-plain val (v₁, v₂, v₃) =
    rw (strip-Without val v₁, strip_by-Without (λ c. c == 34) val v₂)
      (strip_by-Without (λ c. c == 39) val v₃)

unquote-quoted : (val : Str) → IsPlain val → unquote (34 ∷ val ++ (34 ∷ [])) ≡ val
unfolding unquote
unquote-quoted val (v₁, v₂, v₃) =
    rw
      (
        strip-Without (34 ∷ val ++ (34 ∷ [])) (refl, All-append _ val (34 ∷ []) v₁ (refl, tt)),
        strip_by-around (λ c. c == 34) 34 val refl v₂,
      )
      (strip_by-Without (λ c. c == 39) val v₃)

setting_of-parts :
    (c : ℕ) (key rest val : Str)
    → Without (λ d. d == equals_sign) (c ∷ key)
    → Without is_space (c ∷ key)
    → (c == 35) ≡ false
    → unquote rest ≡ val
    → setting_of ((c ∷ key) ++ (equals_sign ∷ rest)) ≡ some (c ∷ key, val)
unfolding setting_of
setting_of-parts c key rest val k₁ k₂ no_comment e = rw (
  no_comment,
  any-append (c ∷ key) rest,
  partition_at-first equals_sign (c ∷ key) rest k₁,
  strip-Without (c ∷ key) k₂,
  e,
)

-- A line that sets a variable is read as that. The name has no "=" and no blanks in it and does not
-- begin with "#", the value has neither blanks nor quotes in it, and may stand in double quotes.
setting_of-line :
    (c : ℕ) (key val : Str)
    → Without (λ d. d == equals_sign) (c ∷ key)
    → Without is_space (c ∷ key)
    → (c == 35) ≡ false
    → IsPlain val
    → (setting_of ((c ∷ key) ++ (equals_sign ∷ val)) ≡ some (c ∷ key, val))
      × (setting_of ((c ∷ key) ++ (equals_sign ∷ 34 ∷ val ++ (34 ∷ []))) ≡ some (c ∷ key, val))
setting_of-line c key val k₁ k₂ no_comment plain = (
  setting_of-parts c key val val k₁ k₂ no_comment (unquote-plain val plain),
  setting_of-parts c key (34 ∷ val ++ (34 ∷ [])) val k₁ k₂ no_comment (unquote-quoted val plain),
)
