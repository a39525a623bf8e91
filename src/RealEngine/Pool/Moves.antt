-- ===== src/RealEngine/Pool/Moves.antt =====
-- A move keeps the invariant.
use radixgates.Base.{ℕ, ◌<◌, ◌≤◌, ◌≡◌, refl, Bool, leb, count_if, range_from, arith}
use radixgates.RealEngine.Pool.{
  Phase, Shared, Move, start, acquire, Pool, pick, Reach, here, next, init, update,
}
use radixgates.RealEngine.Pool.Count.{total, total-update, total-same}
use radixgates.RealEngine.Pool.Invariant.{is_queued, is_inside, active, tally, has_lock, Sees, Inv}
use radixgates.RealEngine.Share.{count_if-range}

module _ {k c : ℕ} {m : Shared} {f : ℕ → Phase} (inv : Inv k m f) (i : ℕ) (lt : i < k) where
  open inv use {few, queue, runs, lock, sees, counted}

  Move-few : {p p' : Phase} {m' : Shared} → Move k c i m p m' p' → f i ≡ p → m'.started ≤ k
  Move-few (start first room) e = omega arith
  Move-few mv e = few

  Move-queue :
      {p p' : Phase} {m' : Shared}
      → Move k c i m p m' p'
      → f i ≡ p
      → (j : ℕ) → is_queued (update f i p' j) ≡ leb m'.started j
  Move-queue (start first room) e j = ground (arith, queue j)
  Move-queue mv e j = ground (arith, queue j, queue i)

  Move-lock :
      {p p' : Phase} {m' : Shared}
      → Move k c i m p m' p'
      → f i ≡ p
      → (j : ℕ) → is_inside (update f i p' j) ≡ has_lock m'.holder j
  Move-lock (acquire free) e j = ground (arith, lock j)
  Move-lock mv e j = ground (arith, lock j, lock i)

  Move-Sees :
      {p p' : Phase} {m' : Shared}
      → Move k c i m p m' p'
      → f i ≡ p
      → (j : ℕ) → Sees m'.counter (update f i p' j)
  Move-Sees (start first room) e j = ground (arith, sees j)
  Move-Sees mv e j = ground (arith, lock j, lock i, sees j, sees i)

  Move-runs :
      {p p' : Phase} {m' : Shared}
      → Move k c i m p m' p'
      → f i ≡ p
      → m'.running ≡ total active k (update f i p')
  Move-runs {p'} (start first room) e = ground (arith, runs, total-update active k f i p' lt)
  Move-runs {p'} mv e = ground (arith, runs, total-update active k f i p' lt)

  Move-counted :
      {p p' : Phase} {m' : Shared}
      → Move k c i m p m' p'
      → f i ≡ p
      → (q : ℕ → Bool) → total (tally q) k (update f i p') ≡ count_if q (range_from m'.counter 0)
  Move-counted {p'} (start first room) e q =
      ground (arith, counted q, total-update (tally q) k f i p' lt)
  Move-counted {p'} mv e q =
      ground
        (arith, counted q, sees i, total-update (tally q) k f i p' lt, count_if-range q m.counter)

  pub Move-Inv :
      {p p' : Phase} {m' : Shared} → Move k c i m p m' p' → f i ≡ p → Inv k m' (update f i p')
  Move-Inv mv e = record {
    few = Move-few mv e;
    queue = Move-queue mv e;
    runs = Move-runs mv e;
    lock = Move-lock mv e;
    sees = Move-Sees mv e;
    counted = Move-counted mv e;
  }

init-Inv : (k : ℕ) → Inv k init.mem init.phase
init-Inv k = record {
  few = omega arith;
  queue = λ j. ground arith;
  runs = omega (arith, total-same active k 0 refl);
  lock = λ j. refl;
  sees = λ j. tt;
  counted = λ p. omega (arith, total-same (tally p) k 0 refl);
}

-- Every state of a run satisfies the invariant.
pub Reach-Inv : {k c n : ℕ} {s : Pool} → Reach k c n s → Inv k s.mem s.phase
Reach-Inv {k} here = init-Inv k
Reach-Inv (next r (pick i lt mv)) = Move-Inv (Reach-Inv r) i lt mv refl
