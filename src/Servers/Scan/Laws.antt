-- ===== src/Servers/Scan/Laws.antt =====
-- What the scan for keywords shows.
use radixgates.Base.{ℕ, ◌+◌, ◌<◌, ◌≤◌, List, Str, ◌≡◌, length}
use radixgates.Servers.Scan.{Scan}

-- Of how many lines the ones that are shown, and the number of others, come.
abbrev Shows : List Str → ℕ → ℕ → Type 0
Shows shown more n = (length shown + more ≡ n) × (0 < length shown) × (length shown ≤ 20)
