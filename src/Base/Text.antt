-- ===== src/Base/Text.antt =====
-- Python's `str` as a list of code points, with the methods that the scripts call.
use Prim.Native.Nat.{ℕ}
use Prim.Native.String.{String}
use Prim.Native.Char.{code}
use mathlib.Core.Bool.{Bool, true, false, ◌&&◌, ◌||◌}
use mathlib.Core.List.{List, [], ◌∷◌, reverse}
use radixgates.Base.Tests.{leb, ◌==◌, if◌then◌else◌}

abbrev pub Str : Type 0
Str = List ℕ

-- A text literal.
abbrev pub lit : String → Str
lit String.[] = []
lit (String.◌∷◌ c s) = code c ∷ lit s

-- `s == t`
abbrev pub str_eq : Str → Str → Bool
str_eq [] [] = true
str_eq [] (d ∷ t) = false
str_eq (c ∷ s) [] = false
str_eq (c ∷ s) (d ∷ t) = c == d && str_eq s t

-- `s.startswith(p)`, argument order `starts_with s p`
abbrev pub starts_with : Str → Str → Bool
starts_with s [] = true
starts_with [] (d ∷ p) = false
starts_with (c ∷ s) (d ∷ p) = c == d && starts_with s p

-- `p in s`
abbrev pub contains_text : Str → Str → Bool
contains_text [] p = starts_with [] p
contains_text (c ∷ s) p = starts_with (c ∷ s) p || contains_text s p

-- the characters for which `str.isspace` holds, which `strip()` takes off
unfoldable pub is_space : ℕ → Bool
is_space c =
    (leb 9 c && leb c 13)
    || (leb 28 c && leb c 32)
    || c == 0x85
    || c == 0xa0
    || c == 0x1680
    || (leb 0x2000 c && leb c 0x200a)
    || c == 0x2028
    || c == 0x2029
    || c == 0x202f
    || c == 0x205f
    || c == 0x3000

-- `lstrip`, `rstrip` and `strip` by a set of characters
unfoldable pub lstrip_by : (ℕ → Bool) → Str → Str
lstrip_by p [] = []
lstrip_by p (c ∷ s) = let rest = lstrip_by p s in if p c then rest else c ∷ s

unfoldable pub rstrip_by : (ℕ → Bool) → Str → Str
unfolding lstrip_by
rstrip_by p s = reverse (lstrip_by p (reverse s))

unfoldable pub strip_by : (ℕ → Bool) → Str → Str
unfolding lstrip_by rstrip_by
strip_by p s = rstrip_by p (lstrip_by p s)

unfoldable pub strip : Str → Str
unfolding strip_by is_space
strip = strip_by is_space

-- puts a character in front of the first piece
abbrev pub cons_head : ℕ → List Str → List Str
cons_head c [] = (c ∷ []) ∷ []
cons_head c (p ∷ ps) = (c ∷ p) ∷ ps

-- `s.split(sep)` for a separator of one character: at least one piece
unfoldable pub split_on : ℕ → Str → List Str
split_on sep [] = [] ∷ []
split_on sep (c ∷ s) = let rest = split_on sep s in if c == sep then [] ∷ rest else cons_head c rest

-- the line boundaries of `str.splitlines`
unfoldable pub is_line_end : ℕ → Bool
is_line_end c =
    (leb 10 c && leb c 13) || (leb 28 c && leb c 30) || c == 0x85 || c == 0x2028 || c == 0x2029

-- `s.splitlines()`: no empty line after a final line end, and "\r\n" ends one line. The flag says
-- that the last character was "\r".
unfoldable pub lines_from : Bool → Str → List Str
unfolding is_line_end
lines_from cr [] = []
lines_from cr (c ∷ s) =
    let rest = lines_from (c == 13) s in
    if cr && c == 10 then rest else if is_line_end c then [] ∷ rest else cons_head c rest

unfoldable pub splitlines : Str → List Str
unfolding lines_from
splitlines = lines_from false
