-- ===== src/RealEngine/Pool/Invariant.antt =====
-- What holds of the threads at every moment.
use radixgates.Base.{
  ℕ, ◌≤◌, ◌==◌, ◌≡◌, Bool, true, false, Option, none, some, leb, count_if, range_from,
  if◌then◌else◌,
}
use radixgates.RealEngine.Pool.{Phase, Shared}
use radixgates.RealEngine.Pool.Count.{total}

abbrev pub is_queued : Phase → Bool
is_queued Phase.queued = true
is_queued _ = false

-- whether the thread has the lock
abbrev pub is_inside : Phase → Bool
is_inside Phase.locked = true
is_inside (Phase.took n) = true
is_inside (Phase.adding n x) = true
is_inside (Phase.added n) = true
is_inside _ = false

abbrev pub is_finished : Phase → Bool
is_finished (Phase.finished n) = true
is_finished _ = false

-- 1 for a request that has been started and has not finished
abbrev pub active : Phase → ℕ
active Phase.queued = 0
active (Phase.finished n) = 0
active _ = 1

-- 1 for a request that has counted a number with `p`
abbrev pub tally : (ℕ → Bool) → Phase → ℕ
tally p (Phase.added n) = if p n then 1 else 0
tally p (Phase.released n) = if p n then 1 else 0
tally p (Phase.finished n) = if p n then 1 else 0
tally p _ = 0

abbrev pub has_lock : Option ℕ → ℕ → Bool
has_lock none j = false
has_lock (some i) j = i == j

-- What a thread inside has read is still the counter.
abbrev pub Sees : ℕ → Phase → Type 0
Sees counter (Phase.took n) = n ≡ counter
Sees counter (Phase.adding n x) = (n ≡ counter) × (x ≡ counter)
Sees counter _ = Unit {0}

pub record Inv (k : ℕ) (m : Shared) (f : ℕ → Phase) : Type 0 where
  pub few : m.started ≤ k
  pub queue : (j : ℕ) → is_queued (f j) ≡ leb m.started j
  pub runs : m.running ≡ total active k f
  pub lock : (j : ℕ) → is_inside (f j) ≡ has_lock m.holder j
  pub sees : (j : ℕ) → Sees m.counter (f j)
  pub counted : (p : ℕ → Bool) → total (tally p) k f ≡ count_if p (range_from m.counter 0)
