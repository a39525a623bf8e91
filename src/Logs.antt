-- ===== src/Logs.antt =====
-- examples/_log_utils.py: where the logs of the containers come from, and where they are saved.
pub mod Total
pub mod Save
pub mod Env
pub mod Target
pub mod Files
use radixgates.Base.{ℕ, List, [], ◌∷◌, ◌++◌, Option, none, some, Bool, true, false, not, ◌&&◌, ◌||◌}
use radixgates.Base.{◌==◌, is_empty, any, Str, lit, starts_with, contains_text, strip, strip_by}
use radixgates.Base.{if◌then◌else◌, cons_head}
use radixgates.Base.Dict.{Dict, lookup, insert, has_key}
use radixgates.Python.{Exc, Result, ok, raise, ◌>>=◌, ◌>>◌}

abbrev pub equals_sign : ℕ
equals_sign = 61

-- The lines of a text file. Between "\r" and "\n" there is an empty line more, which is skipped.
unfoldable pub file_lines : Str → List Str
file_lines [] = [] ∷ []
file_lines (c ∷ s) =
    let rest = file_lines s in if c == 10 || c == 13 then [] ∷ rest else cons_head c rest

-- `s.partition("=")` where the sign is known to be there: before and after the first one
unfoldable pub partition_at : ℕ → Str → Str × Str
partition_at sep [] = ([], [])
partition_at sep (c ∷ s) =
    let (before, after) = partition_at sep s in if c == sep then ([], s) else (c ∷ before, after)

-- `val.strip().strip('"').strip("'")`
unfoldable pub unquote : Str → Str
unfolding strip strip_by
unquote val = strip_by (λ c. c == 39) (strip_by (λ c. c == 34) (strip val))

-- the variable and the value that a stripped line sets
unfoldable pub setting_of : Str → Option (Str × Str)
unfolding partition_at unquote strip
setting_of line =
    if is_empty line || starts_with line (lit "#") || not (any (λ c. c == equals_sign) line)
    then none
    else (let (key, val) = partition_at equals_sign line in
        if is_empty (strip key) then none else some (strip key, unquote val))

-- a variable that is set already stays
unfoldable pub apply_setting : Option (Str × Str) → Dict Str → Dict Str
apply_setting none env = env
apply_setting (some (key, val)) env = if has_key key env then env else insert key val env

-- one turn of the loop of `_load_env_file`
unfoldable pub load_line : Dict Str → Str → Dict Str
unfolding setting_of apply_setting
load_line env line = apply_setting (setting_of (strip line)) env

unfoldable pub load_lines : Dict Str → List Str → Dict Str
unfolding load_line
load_lines env [] = env
load_lines env (line ∷ lines) = load_lines (load_line env line) lines

-- `_load_env_file`; the file may be missing, which `none` stands for
unfoldable pub load_env_file : Option (Result Str) → Dict Str → Result (Dict Str)
unfolding load_lines file_lines
load_env_file none env = ok env
load_env_file (some (raise e)) env = raise e
load_env_file (some (ok text)) env = ok (load_lines env (file_lines text))

-- `ssh_target.rsplit(":", 1)`: what stands before and after the last colon, or all of it
abbrev pub before_split : ℕ → Str → Str × Option Str → Str × Option Str
before_split c s (host, some port) = (c ∷ host, some port)
before_split c s (host, none) = if c == 58 then ([], some s) else (c ∷ host, none)

unfoldable pub rsplit_colon : Str → Str × Option Str
rsplit_colon [] = ([], none)
rsplit_colon (c ∷ s) = before_split c s (rsplit_colon s)

abbrev pub default_port : Str × Option Str → Str × Str
default_port (host, none) = (host, lit "22")
default_port (host, some port) = (host, port)

unfoldable pub host_and_port : Str → Str × Str
unfolding rsplit_colon
host_and_port ssh_target = default_port (rsplit_colon ssh_target)
