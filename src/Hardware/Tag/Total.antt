-- ===== src/Hardware/Tag/Total.antt =====
-- What the readings of nvidia-smi come to when nothing interrupts them.
use radixgates.Base.{
  ℕ, List, [], ◌∷◌, ◌≡◌, refl, sym, ap, Option, none, some, Str, splitlines, strip, Bool, true,
  if◌then◌else◌,
}
use mathlib.Core.Option.{none-ne-some, some-injective}
use radixgates.Python.{Exc, Result, ok, raise, ◌>>=◌, value_error}
use radixgates.Python.Catch.{Catchable, >>=-Catchable, or_raise-Catchable}
use radixgates.Hardware.{Output, Gpu, Closing, fields, parse_int, parse_signed, check_gpu_memory}
use radixgates.Hardware.Tag.{
  LinkType, name_of, read_names, counted, gpu_names, link_type, print_hw_info,
}

caught :
    {A : Type 0} (b : Bool) (a : A) (e : Exc)
    → b ≡ true
    → (x : A) × ((if b then ok a else raise e) ≡ ok x)
caught b a e h = (a, rw h refl)

bind_total :
    {A B : Type 0} (m : Result A) (f : A → Result B)
    → (a : A) × (m ≡ ok a)
    → ((a : A) → (x : B) × (f a ≡ ok x))
    → (x : B) × ((m >>= f) ≡ ok x)
bind_total m f (a, e) k = let (x, ex) = k a in (x, rw e ex)

parse_int-Catchable : (s : Str) → Catchable (parse_int s)
unfolding parse_int
parse_int-Catchable s = or_raise-Catchable (parse_signed (strip s)) value_error refl

name_of-Catchable :
    (l : List Str) (name : Str) (r : Result (Unit {0})) → name_of l ≡ some (name, r) → Catchable r
unfolding name_of
name_of-Catchable (index ∷ name' ∷ mem ∷ rest) name r e =
    let same : (parse_int mem >>= (λ _. ok (tt {0}))) ≡ r =
      ap (λ (p : Str × Result (Unit {0})). p.1) (some-injective _ _ e) in
    rw (sym same)
      (>>=-Catchable (parse_int mem) (λ _. ok (tt {0})) (parse_int-Catchable mem) (λ _. tt))
name_of-Catchable [] name r e = absurd (none-ne-some _ e)
name_of-Catchable (index ∷ []) name r e = absurd (none-ne-some _ e)
name_of-Catchable (index ∷ name' ∷ []) name r e = absurd (none-ne-some _ e)

read_names-Catchable : (lines : List Str) → Catchable (read_names lines).1
unfolding read_names
read_names-Catchable [] = tt
read_names-Catchable (line ∷ lines) = from (name_of (fields line)) refl (read_names-Catchable lines)
  where
    from :
        (v : Option (Str × Result (Unit {0})))
        → name_of (fields line) ≡ v
        → Catchable (read_names lines).1
        → Catchable (read_names (line ∷ lines)).1
    from none e h = rw (read_names, e) h
    from (some (name, raise x)) e h =
        rw (read_names, e) (name_of-Catchable (fields line) name (raise x) e)
    from (some (name, ok u)) e h = rw (read_names, e) h

counted_total :
    (p : List Str × Result (Unit {0})) → Catchable p.1 → (x : List Str × ℕ) × (counted p ≡ ok x)
counted_total (names, ok u) h = (_, refl)
counted_total (names, raise e) h = ((names, 0), rw h refl)

gpu_names_total : (o : Output) → Catchable o → (x : List Str × ℕ) × (gpu_names o ≡ ok x)
unfolding gpu_names
gpu_names_total (raise e) h = (([], 0), rw h refl)
gpu_names_total (ok out) h =
    counted_total (read_names (splitlines (strip out)))
      (read_names-Catchable (splitlines (strip out)))

link_type_total : (o : Output) → Catchable o → (l : LinkType) × (link_type o ≡ ok l)
unfolding link_type
link_type_total (raise e) h = caught _ _ _ h
link_type_total (ok topo) h = (_, refl)

pub print_hw_info_total :
    (gpus topo : Output)
    → Catchable gpus
    → Catchable topo
    → (tag : Str) × (print_hw_info gpus topo ≡ ok tag)
unfolding print_hw_info
print_hw_info_total gpus topo hg ht =
    bind_total (gpu_names gpus) _ (gpu_names_total gpus hg)
      λ names. bind_total (link_type topo) _ (link_type_total topo ht) λ link. (_, refl)

pub check_gpu_memory_total :
    (o : Output) → Catchable o → (x : List Gpu × Closing) × (check_gpu_memory o ≡ ok x)
unfolding check_gpu_memory
check_gpu_memory_total (raise e) h = caught _ _ _ h
check_gpu_memory_total (ok out) h = (_, refl)
