-- ===== src/Tests/Hardware.antt =====
-- Lines of nvidia-smi, and a topology without NVLink.
use radixgates.Base.{ℕ, List, [], ◌∷◌, some, ◌≡◌, ◌↔◌, refl, arith, get_elem?, splitlines}
use radixgates.Base.{Str, lit, strip}
use radixgates.Base.Int.{pos}
use radixgates.Base.Decimal.{show_ℕ}
use radixgates.Python.{ok}
use radixgates.Hardware.{Gpu, read_line}
use radixgates.Hardware.Lines.{csv_line, read_line-csv_line}
use radixgates.Hardware.Tag.{nvlink, pcie, link_of, link_type}
use radixgates.Hardware.Tag.Laws.{ShowsLink, link_type_iff}

abbrev name : Str
name = lit "NVIDIA A100"

trimmed : strip name ≡ name
unfolding strip
trimmed = refl

read_line-csv_line_example :
    read_line (csv_line 0 name 512 81920)
    ≡ ok (some (record { index = show_ℕ 0; name = name; used = pos 512; total = pos 81920 }))
read_line-csv_line_example = read_line-csv_line 0 name 512 81920 (ground arith) trimmed

abbrev gpu : ℕ → Gpu
gpu used = record { index = lit "0"; name = name; used = pos used; total = pos 100 }

-- two GPUs in use and an idle one
abbrev three : List Gpu
three = gpu 90 ∷ gpu 90 ∷ gpu 1 ∷ []

-- two GPUs on one PCIe host bridge, with the legend that nvidia-smi prints below
abbrev topology : List Str
topology =
    lit "\tGPU0\tGPU1"
    ∷ lit "GPU0\t X \tPHB"
    ∷ lit "GPU1\tPHB\t X "
    ∷ lit "Legend:"
    ∷ lit "  PHB  = Connection traversing PCIe as well as a PCIe Host Bridge"
    ∷ lit "  NV#  = Connection traversing a bonded set of # NVLinks"
    ∷ []

taken_for_nvlink : link_of topology ≡ nvlink
unfolding link_of strip
taken_for_nvlink = refl

-- a row of the matrix, and a line of the legend
abbrev page : Str
page = lit "GPU0\t X \n  NV#  = Connection traversing a bonded set of # NVLinks"

link_type_iff_example :
    ((link_type (ok page) ≡ ok nvlink)
      ↔ ((i : ℕ) × (l : Str) × (get_elem? (splitlines page) i ≡ some l) × ShowsLink l))
    × ((link_type (ok page) ≡ ok pcie)
        ↔ ((i : ℕ) (l : Str) → get_elem? (splitlines page) i ≡ some l → ¬ ShowsLink l))
link_type_iff_example = link_type_iff page
