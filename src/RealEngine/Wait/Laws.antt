-- ===== src/RealEngine/Wait/Laws.antt =====
-- How long a server is waited for.
use radixgates.Base.{ℕ, suc, ◌+◌, ◌<◌, ◌≤◌, ◌≡◌, true, false, Option}
use radixgates.Python.{ok}
use radixgates.RealEngine.Wait.{Probes, Clock, probe_once}

-- `time.sleep(0.5)` takes half a second at least, and the clock does not go back before the loop.
abbrev pub Sleeps : Clock → Type 0
Sleeps clock = (clock 0 ≤ clock 1) × ((i : ℕ) → clock (suc i) + 500 ≤ clock (suc (suc i)))

module _ (clock : Clock) (probes : Probes) (end : ℕ) where
  -- The turn from the i-th on whose answer ends the loop: it is in time, and all before are refused.
  abbrev pub Answered : ℕ → Type 0
  Answered i =
      (m : ℕ) × (i ≤ m)
      × (clock (suc m) < end)
      × (probe_once (probes m) ≡ ok true)
      × ((j : ℕ) → i ≤ j → j < m → probe_once (probes j) ≡ ok false)
