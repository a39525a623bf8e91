-- ===== src/Hardware/Lines.antt =====
-- A line as nvidia-smi prints it is read back.
use radixgates.Base.{ℕ, zero, suc, [], ◌∷◌, ◌++◌, Bool, true, false, ◌≡◌, refl, ap, sym, ◌∙◌, some}
use radixgates.Base.{
  ◌+◌, ◌-◌, ◌*◌, ◌/◌, ◌%◌, ◌<◌, ◌==◌, ltb, All, All-append, is_empty, Str, split_on, strip, arith,
  Bool-cases, inl, inr,
}
use radixgates.Base.Int.{pos}
use radixgates.Base.{All-map, is_space}
use radixgates.Base.Strip.{
  Without, strip-Without, strip-blank, is_space-digit, split_on-piece, split_on-last,
}
use radixgates.Base.Decimal.{show_by, show_ℕ}
use radixgates.Python.{ok}
use radixgates.Hardware.{is_digit, parse_digits, parse_signed, parse_int, fields, gpu_of, read_line}

-- decimal digits and the number they stand for
abbrev Digits : Str → Type 0
Digits = All (λ c. is_digit c ≡ true)

abbrev value : ℕ → Str → ℕ
value n [] = n
value n (c ∷ s) = value (10 * n + (c - 48)) s

value-append : (n d : ℕ) (s : Str) → value n (s ++ ((48 + d) ∷ [])) ≡ 10 * value n s + d
value-append n d [] = omega arith
value-append n d (c ∷ s) = value-append (10 * n + (c - 48)) d s

digit_of : (d : ℕ) → d < 10 → is_digit (48 + d) ≡ true
digit_of d h = ground arith

show_by-value : (fuel n : ℕ) → n < fuel → Digits (show_by fuel n) × (value 0 (show_by fuel n) ≡ n)
unfolding show_by
show_by-value zero n h = absurd (omega arith)
show_by-value (suc fuel) n h = elim (Bool-cases (ltb n 10)) [
  | inl e ↦ rw (e, show_by) ((digit_of n (ground arith), tt), omega arith)
  | inr e ↦
      let (digits, same) = show_by-value fuel (n / 10) (ground arith) in
      rw (e, show_by)
        (
          All-append _ (show_by fuel (n / 10)) _ digits (digit_of (n % 10) (omega arith), tt),
          value-append 0 (n % 10) (show_by fuel (n / 10)) ∙ omega arith,
        )
]

show_by-empty : (fuel n : ℕ) → is_empty (show_by (suc fuel) n) ≡ false
unfolding show_by
show_by-empty fuel n = elim (Bool-cases (ltb n 10)) [
  | inl e ↦ rw (e, show_by) refl
  | inr e ↦ rw (e, show_by) (append_nonempty (show_by fuel (n / 10)))
]
  where
    append_nonempty : (s : Str) → is_empty (s ++ ((48 + n % 10) ∷ [])) ≡ false
    append_nonempty [] = refl
    append_nonempty (c ∷ s) = refl

parse_digits-value : (n : ℕ) (s : Str) → Digits s → parse_digits true n s ≡ some (value n s)
unfolding parse_digits
parse_digits-value n [] h = refl
parse_digits-value n (c ∷ s) h = rw h.0 (parse_digits-value (10 * n + (c - 48)) s h.1)

parse_digits-first :
    (s : Str) → is_empty s ≡ false → Digits s → parse_digits false 0 s ≡ some (value 0 s)
unfolding parse_digits
parse_digits-first [] e h = absurd (cc)
parse_digits-first (c ∷ s) e h = rw h.0 (parse_digits-value (10 * 0 + (c - 48)) s h.1)

parse_signed-value :
    (s : Str) → is_empty s ≡ false → Digits s → parse_signed s ≡ some (pos (value 0 s))
unfolding parse_signed
parse_signed-value [] e h = absurd (cc)
parse_signed-value (c ∷ s) e h =
    let no_minus : (c == 45) ≡ false = not_minus c h.0 in
    let no_plus : (c == 43) ≡ false = not_plus c h.0 in
    rw (no_minus, no_plus, parse_digits-first (c ∷ s) refl h)
  where
    not_minus : (d : ℕ) → is_digit d ≡ true → (d == 45) ≡ false
    not_minus d e = ground arith

    not_plus : (d : ℕ) → is_digit d ≡ true → (d == 43) ≡ false
    not_plus d e = ground arith

pub Digits-Without :
    (p : ℕ → Bool) (s : Str) → ((c : ℕ) → is_digit c ≡ true → p c ≡ false) → Digits s → Without p s
Digits-Without p s f h = All-map _ _ s f h

digit-space : (c : ℕ) → is_digit c ≡ true → is_space c ≡ false
digit-space c h = is_space-digit c (ground arith) (ground arith)

digit-comma : (c : ℕ) → is_digit c ≡ true → (c == 44) ≡ false
digit-comma c h = ground arith

pub show_ℕ-Digits : (n : ℕ) → Digits (show_ℕ n)
unfolding show_ℕ
show_ℕ-Digits n = (show_by-value (suc n) n (omega arith)).0

strip-show_ℕ : (n : ℕ) → strip (show_ℕ n) ≡ show_ℕ n
strip-show_ℕ n =
    strip-Without (show_ℕ n) (Digits-Without is_space (show_ℕ n) digit-space (show_ℕ-Digits n))

-- A number is read back from the digits that print it.
pub parse_int-show_ℕ : (n : ℕ) → parse_int (show_ℕ n) ≡ ok (pos n)
unfolding parse_int show_ℕ
parse_int-show_ℕ n =
    rw
      (strip-show_ℕ n, parse_signed-value (show_by (suc n) n) (show_by-empty n n) (show_ℕ-Digits n))
      (ap (λ (v : ℕ). ok (pos v)) (show_by-value (suc n) n (omega arith)).1)

pub show_ℕ-injective : (i j : ℕ) → show_ℕ i ≡ show_ℕ j → i ≡ j
show_ℕ-injective i j e = number (sym (parse_int-show_ℕ i) ∙ ap parse_int e ∙ parse_int-show_ℕ j)
  where
    number : ok (pos i) ≡ ok (pos j) → i ≡ j
    number h = cc

-- a line of `--format=csv,noheader,nounits`
abbrev pub csv_line : ℕ → Str → ℕ → ℕ → Str
csv_line index name used total =
    show_ℕ index ++ (44 ∷ 32 ∷ name ++ (44 ∷ 32 ∷ show_ℕ used ++ (44 ∷ 32 ∷ show_ℕ total)))

no_comma : (n : ℕ) → Without (λ c. c == 44) (show_ℕ n)
no_comma n = Digits-Without (λ c. c == 44) (show_ℕ n) digit-comma (show_ℕ-Digits n)

split_on-csv_line :
    (index : ℕ) (name : Str) (used total : ℕ)
    → Without (λ c. c == 44) name
    → split_on 44 (csv_line index name used total)
      ≡ show_ℕ index ∷ (32 ∷ name) ∷ (32 ∷ show_ℕ used) ∷ (32 ∷ show_ℕ total) ∷ []
split_on-csv_line index name used total h =
    split_on-piece 44 (show_ℕ index) _ (no_comma index)
    ∙ ap (λ l. show_ℕ index ∷ l)
        (split_on-piece 44 (32 ∷ name) _ (refl, h)
          ∙ ap (λ l. (32 ∷ name) ∷ l)
              (split_on-piece 44 (32 ∷ show_ℕ used) _ (refl, no_comma used)
                ∙ ap (λ l. (32 ∷ show_ℕ used) ∷ l)
                    (split_on-last 44 (32 ∷ show_ℕ total) (refl, no_comma total))))

-- A line in nvidia-smi's format is read back: the index, the name (which has no comma and no blanks
-- around it), and the two sizes.
pub read_line-csv_line :
    (index : ℕ) (name : Str) (used total : ℕ)
    → Without (λ c. c == 44) name
    → strip name ≡ name
    → read_line (csv_line index name used total)
      ≡ ok (some (record { index = show_ℕ index; name = name; used = pos used; total = pos total }))
unfolding read_line fields gpu_of
read_line-csv_line index name used total h stripped = rw (
  split_on-csv_line index name used total h,
  strip-blank name,
  strip-blank (show_ℕ used),
  strip-blank (show_ℕ total),
  strip-show_ℕ index,
  strip-show_ℕ used,
  strip-show_ℕ total,
  stripped,
  parse_int-show_ℕ used,
  parse_int-show_ℕ total,
)
