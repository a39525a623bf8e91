-- ===== src/RealEngine/Pool/Progress.antt =====
-- No schedule of the threads stops before its end.
use radixgates.Base.{
  ℕ, zero, suc, ◌<◌, ◌≤◌, ◌≡◌, refl, ap, ◌∙◌, ◌⊎◌, true, false, Bool-cases, Option-cases, inl, inr,
  ltb, arith,
}
use radixgates.RealEngine.Pool.{
  Phase, Shared, Move, start, acquire, read, read_again, write, release, finish, Pool, Step, pick,
  Reach,
}
use radixgates.RealEngine.Pool.Count.{total, total-pos, total-zero}
use radixgates.RealEngine.Pool.Invariant.{is_queued, is_inside, is_finished, active, Inv}
use radixgates.RealEngine.Pool.Moves.{Reach-Inv}

abbrev pub AllFinished : ℕ → Pool → Type 0
AllFinished k s = (j : ℕ) → j < k → is_finished (s.phase j) ≡ true

queued_of : (p : Phase) → is_queued p ≡ true → p ≡ Phase.queued
queued_of Phase.queued e = refl
queued_of p e = absurd (cc)

finished_of : (p : Phase) → is_queued p ≡ false → active p ≡ 0 → is_finished p ≡ true
finished_of (Phase.finished n) e h = refl
finished_of p e h = absurd (ground arith)

module _ {k : ℕ} (s : Pool) (inv : Inv k s.mem s.phase) where
  open inv use {few, queue, runs}

  below : (i : ℕ) → is_queued (s.phase i) ≡ false → i < k
  below i e = ground (arith, queue i, few)

  finished_at : k ≤ s.mem.started → s.mem.running ≡ 0 → AllFinished k s
  finished_at all idle j lt =
      finished_of (s.phase j) (ground (arith, queue j))
        (total-zero active k s.phase (omega (arith, runs)) j lt)

module _ {k c : ℕ} (s : Pool) (inv : Inv k s.mem s.phase) where
  open inv use {queue, runs, lock}

  goes_at :
      (i : ℕ) {m : Shared} (p p' : Phase)
      → i < k
      → s.phase i ≡ p
      → Move k c i s.mem p m p'
      → (t : Pool) × Step k c s t
  goes_at i {m} p p' lt e mv = (_, pick i {m = m} {p = p'} lt (rw e mv))

  goes_inside : (i : ℕ) (p : Phase) → s.phase i ≡ p → is_inside p ≡ true → (t : Pool) × Step k c s t
  goes_inside i Phase.locked e h = goes_at i _ _ (below s inv i (ap is_queued e)) e read
  goes_inside i (Phase.took n) e h = goes_at i _ _ (below s inv i (ap is_queued e)) e read_again
  goes_inside i (Phase.adding n x) e h = goes_at i _ _ (below s inv i (ap is_queued e)) e write
  goes_inside i (Phase.added n) e h = goes_at i _ _ (below s inv i (ap is_queued e)) e release
  goes_inside i Phase.queued e h = absurd (cc)
  goes_inside i Phase.ready e h = absurd (cc)
  goes_inside i (Phase.released n) e h = absurd (cc)
  goes_inside i (Phase.finished n) e h = absurd (cc)

  goes_ready : (i : ℕ) → s.phase i ≡ Phase.ready → (t : Pool) × Step k c s t
  goes_ready i e = elim (Option-cases s.mem.holder) [
    | inl free ↦ goes_at i _ _ (below s inv i (ap is_queued e)) e (acquire free)
    | inr (h, taken) ↦ goes_inside h (s.phase h) refl (ground (arith, lock h))
  ]

  goes_active : (i : ℕ) (p : Phase) → s.phase i ≡ p → 0 < active p → (t : Pool) × Step k c s t
  goes_active i Phase.queued e h = absurd (omega arith)
  goes_active i Phase.ready e h = goes_ready i e
  goes_active i Phase.locked e h = goes_inside i _ e refl
  goes_active i (Phase.took n) e h = goes_inside i _ e refl
  goes_active i (Phase.adding n x) e h = goes_inside i _ e refl
  goes_active i (Phase.added n) e h = goes_inside i _ e refl
  goes_active i (Phase.released n) e h = goes_at i _ _ (below s inv i (ap is_queued e)) e finish
  goes_active i (Phase.finished n) e h = absurd (omega arith)

  goes_running : 0 < s.mem.running → (t : Pool) × Step k c s t
  goes_running h =
      let (i, _, moves) = total-pos active k s.phase (omega (arith, runs)) in
      goes_active i (s.phase i) refl moves

  goes_start : s.mem.started < k → s.mem.running < c → (t : Pool) × Step k c s t
  goes_start more room =
      let waits = queued_of (s.phase s.mem.started) (queue s.mem.started ∙ ground arith) in
      goes_at s.mem.started _ _ more waits (start refl room)

-- If there is a thread, then in every state that a run can come to, either all requests have
-- finished or some thread can move: no deadlock.
pub Reach-progress :
    {k c n : ℕ} {s : Pool} → 0 < c → Reach k c n s → AllFinished k s ⊎ ((t : Pool) × Step k c s t)
Reach-progress {k} {c} {s} threads r = elim (Bool-cases (ltb s.mem.started k)) [
  | inl more ↦ elim (Bool-cases (ltb s.mem.running c)) [
    | inl room ↦ inr (goes_start s (Reach-Inv r) (ground arith) (ground arith))
    | inr full ↦ inr (goes_running s (Reach-Inv r) (ground arith))
  ]
  | inr all ↦ elim (Bool-cases (ltb 0 s.mem.running)) [
    | inl some_run ↦ inr (goes_running s (Reach-Inv r) (ground arith))
    | inr idle ↦ inl (finished_at s (Reach-Inv r) (ground arith) (ground arith))
  ]
]

-- Of finished requests only what they count in this phase matters.
pub finished_same :
    (v w : Phase → ℕ) (k : ℕ) (f : ℕ → Phase)
    → ((n : ℕ) → v (Phase.finished n) ≡ w (Phase.finished n))
    → ((j : ℕ) → j < k → is_finished (f j) ≡ true)
    → total v k f ≡ total w k f
unfolding total
finished_same v w zero f same all = refl
finished_same v w (suc k) f same all = omega (
  arith,
  finished_same v w k f same (λ j lt. all j (omega arith)),
  at (f k) (all k (omega arith)),
)
  where
    at : (p : Phase) → is_finished p ≡ true → v p ≡ w p
    at (Phase.finished n) e = same n
    at p e = absurd (cc)
