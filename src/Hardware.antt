-- ===== src/Hardware.antt =====
-- The readings of nvidia-smi: `check_gpu_memory` of examples/tp_demo.py, examples/ep_demo.py and
-- examples/dp_demo.py, and `print_hw_info` of examples/_log_utils.py, whose tag is in Hardware/Tag.
pub mod Tag
pub mod Bars
pub mod Lines
pub mod Spread
use radixgates.Base.{ℕ, zero, suc, List, [], ◌∷◌, ◌++◌, Option, none, some, Bool, true, false}
use radixgates.Base.{◌+◌, ◌-◌, ◌*◌, ◌/◌, ◌==◌, leb, ltb, not, ◌&&◌, ◌||◌, if◌then◌else◌}
use radixgates.Base.{map, all, length, replicate, is_empty, Str, strip, split_on, splitlines}
use radixgates.Base.Int.{ℤ, pos, negsuc, ◌-ℤ◌, ◌*ℤ◌, ltb_ℤ}
use radixgates.Python.{
  Exc, Result, ok, raise, ◌>>=◌, value_error, or_raise, missing_file, is_exception,
}

-- `int(s)` for ASCII digits: white space around, a sign, and single underscores between digits
abbrev pub is_digit : ℕ → Bool
is_digit c = leb 48 c && leb c 57

-- The flag says that the last character was a digit.
unfoldable pub parse_digits : Bool → ℕ → Str → Option ℕ
parse_digits after_digit n [] = if after_digit then some n else none
parse_digits after_digit n (c ∷ s) =
    let more = parse_digits true (10 * n + (c - 48)) s in
    let skipping = parse_digits false n s in
    if is_digit c then more else if c == 95 && after_digit then skipping else none

unfoldable pub parse_signed : Str → Option ℤ
unfolding parse_digits
parse_signed [] = none
parse_signed (c ∷ s) =
    if c == 45
    then elim (parse_digits false 0 s) [ none ↦ none | some n ↦ some (pos 0 -ℤ pos n) ]
    else elim (parse_digits false 0 (if c == 43 then s else c ∷ s)) [
      | none ↦ none
      | some n ↦ some (pos n)
    ]

unfoldable pub parse_int : Str → Result ℤ
unfolding strip parse_signed
parse_int s = or_raise (parse_signed (strip s)) value_error

pub record Gpu : Type 0 where
  pub index : Str
  pub name : Str
  pub used : ℤ
  pub total : ℤ

-- `[x.strip() for x in line.split(",")]`
unfoldable pub fields : Str → List Str
unfolding strip split_on
fields line = map strip (split_on 44 line)

-- `none` is a line with fewer than four fields, which is passed over
unfoldable pub gpu_of : List Str → Result (Option Gpu)
unfolding parse_int
gpu_of (index ∷ name ∷ used_s ∷ total_s ∷ rest) = do
  used ← parse_int used_s
  total ← parse_int total_s
  ok (some (record { index = index; name = name; used = used; total = total }))
gpu_of _ = ok none

unfoldable pub read_line : Str → Result (Option Gpu)
unfolding fields gpu_of
read_line line = gpu_of (fields line)

-- `max(total, 1)`
abbrev pub at_least_one : ℤ → ℕ
at_least_one (pos zero) = 1
at_least_one (pos (suc n)) = suc n
at_least_one (negsuc n) = 1

-- `int(30 * used / max(total, 1))`, towards 0. For sizes in MB a float's rounding does not reach
-- the next whole number.
unfoldable pub filled : ℤ → ℤ → ℤ
filled (pos used) total = pos (30 * used / at_least_one total)
filled (negsuc n) total = pos 0 -ℤ pos (30 * suc n / at_least_one total)

-- `s * n` for a text of one character and an int
abbrev pub repeat : ℕ → ℤ → Str
repeat c (pos n) = replicate n c
repeat c (negsuc n) = []

unfoldable pub bar : ℤ → ℤ → Str
unfolding filled
bar used total = repeat 0x2588 (filled used total) ++ repeat 0x2591 (pos 30 -ℤ filled used total)

-- `100 * used / max(total, 1) > percent`
unfoldable pub is_above : ℕ → Gpu → Bool
is_above percent g = ltb_ℤ (percent *ℤ pos (at_least_one g.total)) (100 *ℤ g.used)

-- What `subprocess.check_output` gives: the output, or an exception.
abbrev pub Output : Type 0
Output = Result Str

-- The GPUs printed, until a line that cannot be read.
unfoldable pub scan : List Str → List Gpu × Option Exc
unfolding read_line
scan [] = ([], none)
scan (line ∷ lines) =
    let (gpus, e) = scan lines in
    elim (read_line line) [
      | raise x ↦ ([], some x)
      | ok none ↦ (gpus, e)
      | ok (some g) ↦ (g ∷ gpus, e)
    ]

unfoldable pub scan_output : Str → List Gpu × Option Exc
unfolding scan strip splitlines
scan_output out = scan (splitlines (strip out))

-- the end of the check of tp_demo.py
pub data Verdict : Type 0 where
  all_allocated only_one no_information : Verdict

unfoldable pub tp_verdict : List Gpu → Verdict
unfolding is_above
tp_verdict rows =
    let loaded = all (is_above 20) rows in
    if leb 2 (length rows) && loaded
    then all_allocated
    else if length rows == 1 || (not (is_empty rows) && not loaded)
    then only_one
    else no_information

-- What a check prints: the GPUs, and then its verdict, or the exception that ended it.
pub data Closing : Type 0 where
  verdict : Verdict → Closing
  unavailable : Closing
  error : Exc → Closing

closing_of : Option Exc → Verdict → Closing
closing_of none v = verdict v
closing_of (some missing_file) v = unavailable
closing_of (some e) v = error e

-- `check_gpu_memory` of tp_demo.py; an exception that `except Exception` does not catch is raised
unfoldable pub check_gpu_memory : Output → Result (List Gpu × Closing)
unfolding scan_output tp_verdict closing_of
check_gpu_memory (raise e) =
    if is_exception e then ok ([], closing_of (some e) no_information) else raise e
check_gpu_memory (ok out) =
    let (gpus, e) = scan_output out in ok (gpus, closing_of e (tp_verdict gpus))
