-- ===== src/Hardware/Tag/Laws.antt =====
-- What the tag of a host rests on.
use radixgates.Base.{
  ℕ, zero, suc, List, [], ◌∷◌, Bool, true, false, not, ◌&&◌, ◌↔◌, ◌∙◌, false-ne-true, some,
  get_elem?, strip, splitlines, is_empty, ◌≡◌, refl, sym, ◌≤◌, Str, lit, starts_with, contains_text,
  keep, any, take, length, All, arith, Bool-cases, inl, inr,
}
use radixgates.Python.{ok}
use radixgates.Hardware.Tag.{
  is_link_line, nvlink, pcie, link_of, link_type, known_names, name_by, short_name,
}

module _ {A : Type 0} (p q : A → Bool) where
  any-keep_found :
      (xs : List A)
      → any p (keep q xs) ≡ true
      → (i : ℕ) × (x : A) × (get_elem? xs i ≡ some x) × (q x ≡ true) × (p x ≡ true)
  any-keep_found [] e = absurd (false-ne-true e)
  any-keep_found (y ∷ xs) e = elim (Bool-cases (q y)) [
    | inl kept ↦ elim (Bool-cases (p y)) [
      | inl found ↦ (0, y, refl, kept, found)
      | inr other ↦
          let (i, x, ex, h, g) = any-keep_found xs (rw (kept, other) at e) in (suc i, x, ex, h, g)
    ]
    | inr dropped ↦
        (let (i, x, ex, h, g) = any-keep_found xs (rw dropped at e) in (suc i, x, ex, h, g))
  ]

  any-keep_back :
      (xs : List A) (i : ℕ) (x : A)
      → get_elem? xs i ≡ some x
      → q x ≡ true
      → p x ≡ true
      → any p (keep q xs) ≡ true
  any-keep_back [] i x e h g = absurd (cc)
  any-keep_back (y ∷ xs) zero x e h g = let same : y ≡ x = cc in rw same (rw (h, g) refl)
  any-keep_back (y ∷ xs) (suc i) x e h g = elim (Bool-cases (q y)) [
    | inl kept ↦ elim (Bool-cases (p y)) [
      | inl found ↦ rw (kept, found) refl
      | inr other ↦ rw (kept, other) (any-keep_back xs i x e h g)
    ]
    | inr dropped ↦ rw dropped (any-keep_back xs i x e h g)
  ]

-- a line that is not blank, does not begin with "GPU", and has "NV" in it
abbrev pub ShowsLink : Str → Type 0
ShowsLink l =
    (is_empty (strip l) ≡ false)
    × (starts_with l (lit "GPU") ≡ false)
    × (contains_text l (lit "NV") ≡ true)

is_link_line_iff :
    (l : Str)
    → (is_link_line l ≡ true) ↔ ((is_empty (strip l) ≡ false) × (starts_with l (lit "GPU") ≡ false))
is_link_line_iff l = both (is_empty (strip l)) (starts_with l (lit "GPU"))
  where
    both : (a b : Bool) → (not a && not b ≡ true) ↔ ((a ≡ false) × (b ≡ false))
    both true b = (λ e. absurd (false-ne-true e), λ (h, g). absurd (false-ne-true (sym h)))
    both false true = (λ e. absurd (false-ne-true e), λ (h, g). absurd (false-ne-true (sym g)))
    both false false = (λ e. (refl, refl), λ h. refl)

-- When `nvidia-smi topo -m` gives a text, the interconnect is NVLink exactly if some line of it that
-- is not blank and does not begin with "GPU", as the rows of the matrix do, has "NV" in it, be it the
-- legend; it is PCIe exactly if none has.
pub link_type_iff :
    (topo : Str)
    → ((link_type (ok topo) ≡ ok nvlink)
        ↔ ((i : ℕ) × (l : Str) × (get_elem? (splitlines topo) i ≡ some l) × ShowsLink l))
      × ((link_type (ok topo) ≡ ok pcie)
          ↔ ((i : ℕ) (l : Str) → get_elem? (splitlines topo) i ≡ some l → ¬ ShowsLink l))
unfolding link_type link_of
link_type_iff topo = elim (Bool-cases (any is_nv (keep is_link_line (splitlines topo)))) [
  | inl e ↦
      let (i, l, el, shows) = shown e in
      rw e ((λ _. (i, l, el, shows), λ _. refl), (λ f. absurd (cc), λ f. absurd (f i l el shows)))
  | inr e ↦ rw e (
    (λ f. absurd (cc), λ (i, l, el, shows). absurd (false-ne-true (sym e ∙ found i l el shows))),
    (λ _ i l el shows. false-ne-true (sym e ∙ found i l el shows), λ _. refl),
  )
]
  where
    is_nv : Str → Bool
    is_nv l = contains_text l (lit "NV")

    shown :
        any is_nv (keep is_link_line (splitlines topo)) ≡ true
        → (i : ℕ) × (l : Str) × (get_elem? (splitlines topo) i ≡ some l) × ShowsLink l
    shown e =
        let (i, l, el, h, g) = any-keep_found is_nv is_link_line (splitlines topo) e in
        let (h₀, h₁) = (is_link_line_iff l).0 h in (i, l, el, (h₀, h₁, g))

    found :
        (i : ℕ) (l : Str)
        → get_elem? (splitlines topo) i ≡ some l
        → ShowsLink l
        → any is_nv (keep is_link_line (splitlines topo)) ≡ true
    found i l el (h₀, h₁, g) =
        any-keep_back is_nv is_link_line (splitlines topo) i l el ((is_link_line_iff l).1 (h₀, h₁))
          g

length-take_le : (n : ℕ) (s : Str) → length (take n s) ≤ n
length-take_le zero s = omega arith
length-take_le (suc n) [] = omega arith
length-take_le (suc n) (c ∷ s) = omega (arith, length-take_le n s)

name_by-length :
    (known : List (Str × Str)) (raw : Str)
    → All (λ (k : Str × Str). length k.1 ≤ 12) known
    → length (name_by known raw) ≤ 12
unfolding name_by
name_by-length [] raw h = length-take_le 12 _
name_by-length ((model, short) ∷ known) raw h = elim (Bool-cases (contains_text raw model)) [
  | inl e ↦ rw e h.0
  | inr e ↦ rw e (name_by-length known raw h.1)
]

-- The name of the GPU in the tag has at most 12 characters.
pub short_name-length : (names : List Str) → length (short_name names) ≤ 12
unfolding short_name
short_name-length [] = omega arith
short_name-length (raw ∷ names) = name_by-length known_names raw (ground arith)
