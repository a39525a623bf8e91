-- ===== src/Servers/Search/Pieces.antt =====
-- Each piece of a search takes what the pattern says, and all that it says.
use mathlib.Core.Option.{none-ne-some, some-injective}
use radixgates.Base.{
  ℕ, ◌+◌, ◌-◌, ◌*◌, ◌≡◌, refl, ap, sym, ◌∙◌, [], ◌∷◌, ◌++◌, Str, true, false, ◌==◌, All, some,
  Bool-cases, inl, inr, arith,
}
use radixgates.Base.{is_space}
use radixgates.Base.Strip.{is_space-digit}
use radixgates.Servers.Search.{
  lower, is_sign, is_digit, after_word, after_dash, skip_signs, after_signs, digits_from, number_at,
}
use radixgates.Servers.Search.Grammar.{Spells, is_dash, Some, Ends, value, Number}

pub after_word-Spells :
    (p s t : Str) → after_word p s ≡ some t → (w : Str) × (s ≡ w ++ t) × Spells p w
after_word-Spells [] s t e = ([], some-injective _ _ e, tt)
after_word-Spells (d ∷ p) [] t e = absurd (cc)
after_word-Spells (d ∷ p) (c ∷ s) t e = elim (Bool-cases (lower c == d)) [
  | inl same ↦
      let (w, q, h) = after_word-Spells p s t (rw same at e) in
      (c ∷ w, ap (λ l. c ∷ l) q, (same, h))
  | inr other ↦ absurd (none-ne-some _ (rw other at e))
]

pub Spells-after_word : (p w t : Str) → Spells p w → after_word p (w ++ t) ≡ some t
Spells-after_word [] [] t h = refl
Spells-after_word (d ∷ p) (c ∷ w) t h = rw h.0 (Spells-after_word p w t h.1)
Spells-after_word [] (c ∷ w) t h = elim h [ ]
Spells-after_word (d ∷ p) [] t h = elim h [ ]

pub after_dash_cases :
    (s t : Str) → after_dash s ≡ some t → (c : ℕ) × (s ≡ c ∷ t) × (is_dash c ≡ true)
after_dash_cases [] t e = absurd (cc)
after_dash_cases (c ∷ s) t e = elim (Bool-cases (is_dash c)) [
  | inl h ↦ (c, ap (λ l. c ∷ l) (some-injective _ _ (rw h at e)), h)
  | inr h ↦ absurd (none-ne-some _ (rw h at e))
]

skip_signs_cases :
    (s : Str)
    → (u : Str) × (s ≡ u ++ skip_signs s)
      × All (λ c. is_sign c ≡ true) u
      × Ends is_sign (skip_signs s)
skip_signs_cases [] = ([], refl, tt, tt)
skip_signs_cases (c ∷ s) = elim (Bool-cases (is_sign c)) [
  | inl h ↦ let (u, e, a, z) = skip_signs_cases s in rw h (c ∷ u, ap (λ l. c ∷ l) e, (h, a), z)
  | inr h ↦ rw h ([], refl, tt, h)
]

pub after_signs_cases :
    (s t : Str) → after_signs s ≡ some t → (u : Str) × (s ≡ u ++ t) × Some is_sign u
after_signs_cases [] t e = absurd (cc)
after_signs_cases (c ∷ s) t e = elim (Bool-cases (is_sign c)) [
  | inl h ↦
      let (u, q, a, _) = skip_signs_cases s in
      let same = some-injective _ _ (rw h at e) in
      (c ∷ u, ap (λ l. c ∷ l) (q ∙ ap (λ l. u ++ l) same), (omega arith, (h, a)))
  | inr h ↦ absurd (none-ne-some _ (rw h at e))
]

skip_signs-append :
    (u t : Str) → All (λ c. is_sign c ≡ true) u → Ends is_sign t → skip_signs (u ++ t) ≡ t
skip_signs-append [] [] a z = refl
skip_signs-append [] (c ∷ t) a z = rw z
skip_signs-append (c ∷ u) t a z = rw a.0 (skip_signs-append u t a.1 z)

pub after_signs-append :
    (u t : Str) → Some is_sign u → Ends is_sign t → after_signs (u ++ t) ≡ some t
after_signs-append [] t h z = absurd (omega arith)
after_signs-append (c ∷ u) t h z = rw h.1.0 (ap some (skip_signs-append u t h.1.1 z))

digits_from_cases :
    (k : ℕ) (s : Str)
    → (digits rest : Str) × (s ≡ digits ++ rest)
      × All (λ c. is_digit c ≡ true) digits
      × Ends is_digit rest
      × (digits_from k s ≡ value k digits)
digits_from_cases k [] = ([], [], refl, tt, tt, refl)
digits_from_cases k (c ∷ s) = elim (Bool-cases (is_digit c)) [
  | inl h ↦
      let (digits, rest, e, a, z, v) = digits_from_cases (10 * k + (c - 48)) s in
      (c ∷ digits, rest, ap (λ l. c ∷ l) e, (h, a), z, rw h v)
  | inr h ↦ ([], c ∷ s, refl, tt, h, rw h)
]

digits_from-append :
    (k : ℕ) (digits rest : Str)
    → All (λ c. is_digit c ≡ true) digits
    → Ends is_digit rest
    → digits_from k (digits ++ rest) ≡ value k digits
digits_from-append k [] [] a z = refl
digits_from-append k [] (c ∷ rest) a z = rw z
digits_from-append k (c ∷ digits) rest a z =
    rw a.0 (digits_from-append (10 * k + (c - 48)) digits rest a.1 z)

pub number_at-Number : (s : Str) (n : ℕ) → number_at s ≡ some n → Number s n
number_at-Number [] n e = absurd (cc)
number_at-Number (c ∷ s) n e = elim (Bool-cases (is_digit c)) [
  | inl h ↦
      let (digits, rest, q, a, z, v) = digits_from_cases (10 * 0 + (c - 48)) s in
      let same = some-injective _ _ (rw h at e) in
      (c ∷ digits, rest, ap (λ l. c ∷ l) q, (omega arith, (h, a)), z, sym same ∙ v)
  | inr h ↦ absurd (none-ne-some _ (rw h at e))
]

pub Number-number_at : (s : Str) (n : ℕ) → Number s n → number_at s ≡ some n
Number-number_at s n ([], rest, e, d, z, v) = absurd (omega arith)
Number-number_at s n (c ∷ digits, rest, e, d, z, v) =
    rw (e, d.1.0) (ap some (digits_from-append (10 * 0 + (c - 48)) digits rest d.1.1 z ∙ sym v))

digit-sign : (c : ℕ) → is_digit c ≡ true → is_sign c ≡ false
digit-sign c h =
    let no_space : is_space c ≡ false = is_space-digit c (ground arith) (ground arith) in
    ground arith

-- A number does not begin with a sign.
pub Number-Ends : (t : Str) (n : ℕ) → Number t n → Ends is_sign t
Number-Ends t n ([], rest, e, d, z, v) = absurd (omega arith)
Number-Ends t n (c ∷ digits, rest, e, d, z, v) = rw e (digit-sign c d.1.0)
