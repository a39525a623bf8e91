-- ===== src/Base/Decimal.antt =====
-- Numbers in decimal, as Python's `str(n)` writes them.
use Prim.Native.Nat.{ℕ, zero, suc, ◌+◌, ◌*◌, ◌/◌, ◌%◌}
use mathlib.Core.Bool.{true, false}
use mathlib.Core.List.{[], ◌∷◌, ◌++◌}
use radixgates.Base.Tests.{ltb}
use radixgates.Base.Text.{Str}

-- There are at most as many digits as the fuel, for `n` less than the fuel.
unfoldable pub show_by : ℕ → ℕ → Str
show_by zero n = []
show_by (suc fuel) n = elim (ltb n 10) [
  | true ↦ (48 + n) ∷ []
  | false ↦ show_by fuel (n / 10) ++ ((48 + n % 10) ∷ [])
]

unfoldable pub show_ℕ : ℕ → Str
unfolding show_by
show_ℕ n = show_by (suc n) n

abbrev pub power_of_ten : ℕ → ℕ
power_of_ten zero = 1
power_of_ten (suc n) = 10 * power_of_ten n
