-- ===== src/Servers/Search.antt =====
-- The searches in a log file, by the patterns of the scripts. Letters and digits are ASCII.
pub mod Grammar
pub mod Pieces
pub mod Leftmost
use radixgates.Base.{
  ℕ, ◌+◌, ◌-◌, ◌*◌, [], ◌∷◌, Str, lit, Option, none, some, Bool, false, ◌&&◌, ◌||◌, leb, ◌==◌,
  is_space, if◌then◌else◌,
}

-- the same letter in lower case
abbrev pub lower : ℕ → ℕ
lower c = if leb 65 c && leb c 90 then c + 32 else c

-- what follows a literal, without regard to case
abbrev pub after_word : Str → Str → Option Str
after_word [] s = some s
after_word (d ∷ p) [] = none
after_word (d ∷ p) (c ∷ s) = let more = after_word p s in if lower c == d then more else none

-- `[_-]`
abbrev pub after_dash : Str → Option Str
after_dash [] = none
after_dash (c ∷ s) = if c == 95 || c == 45 then some s else none

-- `[=:\s]+`, greedy: what follows, if there was one at least
abbrev pub is_sign : ℕ → Bool
is_sign c = c == 61 || c == 58 || is_space c

abbrev pub skip_signs : Str → Str
skip_signs [] = []
skip_signs (c ∷ s) = let more = skip_signs s in if is_sign c then more else c ∷ s

abbrev pub after_signs : Str → Option Str
after_signs [] = none
after_signs (c ∷ s) = if is_sign c then some (skip_signs s) else none

-- `(\d+)`, greedy: the number
abbrev pub is_digit : ℕ → Bool
is_digit c = leb 48 c && leb c 57

abbrev pub digits_from : ℕ → Str → ℕ
digits_from n [] = n
digits_from n (c ∷ s) =
    let more = digits_from (10 * n + (c - 48)) s in if is_digit c then more else n

abbrev pub number_at : Str → Option ℕ
number_at [] = none
number_at (c ∷ s) = if is_digit c then some (digits_from 0 (c ∷ s)) else none

abbrev pub then_at : {A : Type 0} → Option Str → (Str → Option A) → Option A
then_at none k = none
then_at (some s) k = k s

abbrev pub is_word_char : ℕ → Bool
is_word_char c = is_digit c || (leb 65 c && leb c 90) || (leb 97 c && leb c 122) || c == 95

-- `\btp_size=(\d+)`, of which the flag says whether a word character stands before, with the name
-- as an argument
unfoldable pub short_at : Str → Bool → Str → Option ℕ
short_at name word_before s = if word_before then none else then_at (after_word name s) number_at

-- `tensor[_-]parallel[_-]size[=:\s]+(\d+)`, with the first word as an argument
unfoldable pub long_at : Str → Str → Option ℕ
long_at kind s = then_at (after_word kind s) λ s₁. then_at (after_dash s₁) λ s₂.
    then_at (after_word (lit "parallel") s₂) λ s₃.
      then_at (after_dash s₃)
        λ s₄. then_at (after_word (lit "size") s₄) λ s₅. then_at (after_signs s₅) number_at

abbrev pub first_match : {A : Type 0} → Option A → Option A → Option A
first_match none o = o
first_match (some a) o = some a

-- `re.search` for either, with the leftmost match
unfoldable pub search_from : Str → Str → Bool → Str → Option ℕ
unfolding short_at long_at
search_from name kind word_before [] = none
search_from name kind word_before (c ∷ s) =
    first_match (short_at name word_before (c ∷ s))
      (first_match (long_at kind (c ∷ s)) (search_from name kind (is_word_char c) s))

unfoldable pub search_size : Str → Str → Str → Option ℕ
unfolding search_from
search_size name kind content = search_from name kind false content

abbrev pub tp_pattern : Str → Option ℕ
tp_pattern = search_size (lit "tp_size=") (lit "tensor")

abbrev pub ep_pattern : Str → Option ℕ
ep_pattern = search_size (lit "ep_size=") (lit "expert")
