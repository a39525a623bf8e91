-- ===== src/Hardware/Tag.antt =====
-- `print_hw_info` of examples/_log_utils.py: the GPUs, the interconnect, and the tag of the host.
pub mod Laws
pub mod Total
use radixgates.Base.{ℕ, zero, suc, List, [], ◌∷◌, ◌++◌, Option, none, some, Bool, true, false}
use radixgates.Base.{not, ◌&&◌, ◌||◌, ◌==◌, keep, any, length, take, is_empty, if◌then◌else◌}
use radixgates.Base.{Str, lit, starts_with, contains_text, strip, splitlines, if◌then◌else◌}
use radixgates.Base.Decimal.{show_ℕ}
use radixgates.Python.{Exc, Result, ok, raise, ◌>>=◌, is_exception}
use radixgates.Hardware.{Output, fields, parse_int}

-- One line of the list of GPUs. A name counts once its line has three fields, even if the third,
-- the memory, cannot be read after that.
unfoldable pub name_of : List Str → Option (Str × Result (Unit {0}))
unfolding parse_int
name_of (index ∷ name ∷ mem ∷ rest) = some (name, parse_int mem >>= (λ _. ok tt))
name_of _ = none

unfoldable pub read_names : List Str → List Str × Result (Unit {0})
unfolding name_of fields
read_names [] = ([], ok tt)
read_names (line ∷ lines) =
    let (names, r) = read_names lines in
    elim (name_of (fields line)) [
      | none ↦ (names, r)
      | some (name, raise e) ↦ (name ∷ [], raise e)
      | some (name, ok _) ↦ (name ∷ names, r)
    ]

-- `gpu_count = len(gpu_names)` is reached only if no line raised; it stays 0 otherwise.
abbrev pub counted : List Str × Result (Unit {0}) → Result (List Str × ℕ)
counted (names, ok _) = ok (names, length names)
counted (names, raise e) = if is_exception e then ok (names, 0) else raise e

unfoldable pub gpu_names : Output → Result (List Str × ℕ)
unfolding read_names strip splitlines
gpu_names (raise e) = if is_exception e then ok ([], 0) else raise e
gpu_names (ok out) = counted (read_names (splitlines (strip out)))

-- `l.strip() and not l.startswith("GPU")`
abbrev pub is_link_line : Str → Bool
is_link_line l = not (is_empty (strip l)) && not (starts_with l (lit "GPU"))

pub data LinkType : Type 0 where
  nvlink pcie pcie_assumed : LinkType

-- whether a line that is looked at has "NV" in it
unfoldable pub link_of : List Str → LinkType
link_of lines =
    if any (λ l. contains_text l (lit "NV")) (keep is_link_line lines) then nvlink else pcie

unfoldable pub link_type : Output → Result LinkType
unfolding link_of splitlines
link_type (raise e) = if is_exception e then ok pcie_assumed else raise e
link_type (ok topo) = ok (link_of (splitlines topo))

-- `raw.replace(" ", "").replace("/", "")[:12]`
abbrev pub plain_name : Str → Str
plain_name raw = take 12 (keep (λ c. not (c == 32) && not (c == 47)) raw)

abbrev pub known_names : List (Str × Str)
known_names =
    (lit "H100", lit "H100")
    ∷ (lit "H800", lit "H800")
    ∷ (lit "A100", lit "A100")
    ∷ (lit "A10", lit "A10")
    ∷ (lit "4090", lit "RTX4090")
    ∷ (lit "3090", lit "RTX3090")
    ∷ (lit "L40", lit "L40")
    ∷ []

-- the chain of `if` and `elif`
unfoldable pub name_by : List (Str × Str) → Str → Str
name_by [] raw = plain_name raw
name_by ((model, short) ∷ known) raw =
    let later = name_by known raw in if contains_text raw model then short else later

unfoldable pub short_name : List Str → Str
unfolding name_by
short_name [] = lit "UnknownGPU"
short_name (raw ∷ names) = name_by known_names raw

abbrev pub link_tag : LinkType → Str
link_tag nvlink = lit "NVLink"
link_tag pcie = lit "PCIe"
link_tag pcie_assumed = lit "PCIe"

unfoldable pub print_hw_info : Output → Output → Result Str
unfolding gpu_names link_type short_name show_ℕ
print_hw_info gpus topo = do
  (names, gpu_count) ← gpu_names gpus
  link ← link_type topo
  ok (show_ℕ gpu_count ++ lit "x" ++ short_name names ++ lit "_" ++ link_tag link)
