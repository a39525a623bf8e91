-- ===== src/Servers/Search/Grammar.antt =====
-- What the patterns of the scripts mean: the texts that they match, and which match `re.search`
-- takes, without regard to how it is found.
use radixgates.Base.{
  ℕ, ◌+◌, ◌-◌, ◌*◌, ◌<◌, ◌≡◌, [], ◌∷◌, ◌++◌, Str, lit, Bool, true, false, ◌||◌, ◌==◌, All, length,
}
use radixgates.Servers.Search.{lower, is_sign, is_digit, is_word_char}

-- The text is the literal, in letters of either case.
abbrev pub Spells : Str → Str → Type 0
Spells [] [] = Unit
Spells (d ∷ p) (c ∷ w) = ((lower c == d) ≡ true) × Spells p w
Spells p w = ⊥

abbrev pub is_dash : ℕ → Bool
is_dash c = c == 95 || c == 45

-- a class with "+"
abbrev pub Some : (ℕ → Bool) → Str → Type 0
Some p u = (0 < length u) × All (λ c. p c ≡ true) u

-- A greedy repetition does not end before such a text.
abbrev pub Ends : (ℕ → Bool) → Str → Type 0
Ends p [] = Unit
Ends p (c ∷ s) = p c ≡ false

abbrev pub value : ℕ → Str → ℕ
value n [] = n
value n (c ∷ s) = value (10 * n + (c - 48)) s

-- The text begins with the number: `(\d+)`.
abbrev pub Number : Str → ℕ → Type 0
Number s n =
    (digits rest : Str) × (s ≡ digits ++ rest)
    × Some is_digit digits
    × Ends is_digit rest
    × (n ≡ value 0 digits)

-- `\btp_size=(\d+)`, of which the flag says whether a word character stands before
abbrev pub Short : Str → Bool → Str → ℕ → Type 0
Short name word_before s n =
    (word_before ≡ false) × (w t : Str) × (s ≡ w ++ t) × Spells name w × Number t n

-- `tensor[_-]parallel[_-]size[=:\s]+(\d+)`
abbrev pub Long : Str → Str → ℕ → Type 0
Long kind s n =
    (u v w signs t : Str) × (c d : ℕ) × (s ≡ u ++ (c ∷ (v ++ (d ∷ (w ++ (signs ++ t))))))
    × Spells kind u
    × (is_dash c ≡ true)
    × Spells (lit "parallel") v
    × (is_dash d ≡ true)
    × Spells (lit "size") w
    × Some is_sign signs
    × Number t n

-- The leftmost match of either, the first alternative before the second.
pub data Leftmost (name kind : Str) : Bool → Str → ℕ → Type 0 where
  short : {b : Bool} {s : Str} {n : ℕ} → Short name b s n → Leftmost name kind b s n
  long :
      {b : Bool} {s : Str} {n : ℕ}
      → ((m : ℕ) → Short name b s m → ⊥)
      → Long kind s n
      → Leftmost name kind b s n
  later :
      {b : Bool} {c : ℕ} {s : Str} {n : ℕ}
      → ((m : ℕ) → Short name b (c ∷ s) m → ⊥)
      → ((m : ℕ) → Long kind (c ∷ s) m → ⊥)
      → Leftmost name kind (is_word_char c) s n
      → Leftmost name kind b (c ∷ s) n
