-- ===== src/RealEngine/Fleet.antt =====
-- The processes and the git worktree of an experiment: `Fleet`, `build_gateways`, and the `try` and
-- `finally` of `main` in benchmarks/real_engine/run_real.py.
pub mod Keeps
pub mod Laws
use radixgates.Base.{ℕ, zero, suc, List, [], ◌∷◌, ◌++◌, Bool, true, false, not, ◌==◌, ◌||◌}
use radixgates.Base.{any, keep, if◌then◌else◌}
use radixgates.Python.{Exc, Result, ok, raise, runtime_error, value_error}

-- Processes are numbered in the order in which they are started. `running` are those that have
-- not ended, and `procs` is the list that a Fleet keeps; `worktree` says that git has the worktree,
-- and `tmp` that the directory of `mkdtemp` is there.
pub record World : Type 0 where
  pub next : ℕ
  pub running : List ℕ
  pub procs : List ℕ
  pub worktree : Bool
  pub tmp : Bool

-- How `p.wait(5)` comes out after SIGTERM.
pub data Wait : Type 0 where
  ended late : Wait
  broke : Exc → Wait

-- What the host does: whether a process can be started, whether `wait_http` finds it healthy, how
-- it is waited for, the three steps of the build, the warming, and the measurement of the n-th run;
-- whether `git worktree remove` can be run and succeeds, and whether `rmtree` does.
pub record Host : Type 0 where
  pub spawns : ℕ → Result (Unit {0})
  pub healthy : ℕ → Result Bool
  pub waits : ℕ → Wait
  pub builds_upgraded : Result (Unit {0})
  pub adds_worktree : Result (Unit {0})
  pub builds_original : Result (Unit {0})
  pub warms : Result (Unit {0})
  pub measures : ℕ → Result (Unit {0})
  pub removes_worktree : Result Bool
  pub removes_tmp : Bool

-- An action on the world that may raise; what it did before stays.
abbrev pub Act : Type 0 → Type 0
Act A = World → Result A × World

abbrev pub next_act : {A B : Type 0} → Result A × World → (A → Act B) → Result B × World
next_act (ok a, w) k = k a w
next_act (raise e, w) k = (raise e, w)

infixl 5 ◌>>=◌ ◌>>◌
abbrev pub ◌>>=◌ : {A B : Type 0} → Act A → (A → Act B) → Act B
m >>= k = λ w. next_act (m w) k

abbrev pub ◌>>◌ : {A B : Type 0} → Act A → Act B → Act B
m >> k = m >>= λ _. k

-- a step of the host that leaves the world alone
abbrev pub host : {A : Type 0} → Result A → Act A
host r w = (r, w)

abbrev pub has : ℕ → List ℕ → Bool
has p = any (λ q. p == q)

abbrev pub without : ℕ → List ℕ → List ℕ
without p = keep (λ q. not (q == p))

-- `procs.remove(p)`
abbrev pub remove : ℕ → List ℕ → List ℕ
remove p [] = []
remove p (q ∷ ps) = let rest = remove p ps in if p == q then ps else q ∷ rest

-- `Popen` and the `append` after it
unfoldable pub popen : Host → Act ℕ
popen h w = elim (h.spawns w.next) [
  | raise e ↦ (raise e, w)
  | ok _ ↦ (
    ok w.next,
    record w { next = suc w.next; running = w.next ∷ w.running; procs = w.procs ++ (w.next ∷ []) },
  )
]

unfoldable pub wait_healthy : Host → ℕ → Act (Unit {0})
wait_healthy h p w = elim (h.healthy p) [
  | raise e ↦ (raise e, w)
  | ok b ↦ (if b then ok tt else raise runtime_error, w)
]

unfoldable pub popen_all : Host → ℕ → Act (List ℕ)
unfolding popen
popen_all h zero = host (ok [])
popen_all h (suc n) = do p ← popen h; ps ← popen_all h n; host (ok (p ∷ ps))

unfoldable pub wait_all : Host → List ℕ → Act (Unit {0})
unfolding wait_healthy
wait_all h [] = host (ok tt)
wait_all h (p ∷ ps) = wait_healthy h p >> wait_all h ps

unfoldable pub start_workers : Host → ℕ → Act (Unit {0})
unfolding popen_all wait_all
start_workers h workers = do ps ← popen_all h workers; wait_all h ps

unfoldable pub start_gateway : Host → Act ℕ
unfolding popen wait_healthy
start_gateway h = do p ← popen h; wait_healthy h p; host (ok p)

-- A process that is late is killed. An exception of `wait` leaves it as it is.
unfoldable pub stop : Host → ℕ → Act (Unit {0})
stop h p w =
    let gone : Result (Unit {0}) × World = (
      if has p w.procs then ok (tt {0}) else raise value_error,
      record w { running = without p w.running; procs = remove p w.procs },
    ) in
    elim (h.waits p) [ ended ↦ gone | late ↦ gone | broke e ↦ (raise e, w) ]

-- kills every process of the list; an OSError, of a process that has ended, is ignored
abbrev pub kill_all : List ℕ → List ℕ → List ℕ
kill_all [] running = running
kill_all (p ∷ ps) running = kill_all ps (without p running)

unfoldable pub close : World → World
close w = record w { running = kill_all w.procs w.running }

abbrev pub set_worktree : Bool → Act (Unit {0})
set_worktree b w = (ok tt, record w { worktree = b })

unfoldable pub build_gateways : Host → Act (Unit {0})
build_gateways h = do
  host h.builds_upgraded
  host h.adds_worktree
  set_worktree true
  host h.builds_original

-- One policy of one repeat. The flag says that it is not "roundrobin".
unfoldable pub run_one : Host → Bool → ℕ → Act (Unit {0})
unfolding start_gateway stop
run_one h false n = host (h.measures n)
run_one h true n = do gw ← start_gateway h; host (h.measures n); stop h gw

-- The runs of all repeats, one after the other.
unfoldable pub run_all : Host → List Bool → ℕ → Act (Unit {0})
unfolding run_one
run_all h [] n = host (ok tt)
run_all h (gateway ∷ runs) n = run_one h gateway n >> run_all h runs (suc n)

-- the `try` behind the build
unfoldable pub measure_all : Host → ℕ → List Bool → Act (Unit {0})
unfolding start_workers run_all
measure_all h workers runs = do start_workers h workers; host h.warms; run_all h runs 0

-- `shutil.rmtree(tmp, ignore_errors=True)`
abbrev pub rmtree : Host → World → World
rmtree h w = record w { tmp = if h.removes_tmp then false else w.tmp }

-- the end of the `finally` if `build_gateways` has returned: the exit status of `git worktree
-- remove` is not looked at, and an exception of it takes the place of what came before
abbrev pub remove_worktree : {A : Type 0} → Host → Result Bool → Result A × World → Result A × World
remove_worktree h (raise e) (r, w) = (raise e, w)
remove_worktree h (ok gone) (r, w) =
    (r, rmtree h (record w { worktree = if gone then false else w.worktree }))

-- what follows the build, with the `finally`
unfoldable pub finish : Host → ℕ → List Bool → Result (Unit {0}) × World → Result (Unit {0}) × World
unfolding measure_all close
finish h workers runs (raise e, w) = (raise e, rmtree h (close w))
finish h workers runs (ok u, w) =
    let (r, w') = measure_all h workers runs w in remove_worktree h h.removes_worktree (r, close w')

-- the `try` of `main`
unfoldable pub experiment : Host → ℕ → List Bool → Act (Unit {0})
unfolding build_gateways finish
experiment h workers runs w = finish h workers runs (build_gateways h w)

abbrev pub start : World
start = record { next = 0; running = []; procs = []; worktree = false; tmp = true }
