-- ===== src/RealEngine/Fleet/Laws.antt =====
-- What an experiment leaves behind.
use radixgates.Base.{
  ℕ, List, [], ◌∷◌, ◌++◌, Bool, true, false, ◌==◌, ◌≡◌, refl, ◌↔◌, sym, ap, ◌∙◌, ◌⊎◌,
}
use radixgates.Base.{false-ne-true, All, All-map, arith, Bool-cases, inl, inr}
use radixgates.Python.{Result, ok, raise}
use radixgates.RealEngine.Fleet.{
  World, Wait, ended, late, broke, Host, Act, ◌>>◌, host, has, without, remove, popen, stop,
  kill_all, set_worktree, remove_worktree, build_gateways, measure_all, finish, experiment, start,
  close,
}
use radixgates.RealEngine.Fleet.Keeps.{Keeps, measure_all-Keeps}

-- Every process that is running is on the fleet's list.
abbrev Tracked : World → Type 0
Tracked w = All (λ p. has p w.procs ≡ true) w.running

has-append : (p q : ℕ) (l : List ℕ) → has p l ≡ true → has p (l ++ (q ∷ [])) ≡ true
has-append p q [] h = absurd (cc)
has-append p q (r ∷ l) h = ground (arith, has-append p q l)

pub has_last : (p : ℕ) (l : List ℕ) → has p (l ++ (p ∷ [])) ≡ true
has_last p [] = ground arith
has_last p (r ∷ l) = ground (arith, has_last p l)

has-remove : (p q : ℕ) (l : List ℕ) → (q == p) ≡ false → has q l ≡ true → has q (remove p l) ≡ true
has-remove p q [] ne h = h
has-remove p q (r ∷ l) ne h = ground (arith, has-remove p q l ne)

without-Tracked :
    (p : ℕ) (procs running : List ℕ)
    → All (λ q. has q procs ≡ true) running
    → All (λ q. has q (remove p procs) ≡ true) (without p running)
without-Tracked p procs [] h = tt
without-Tracked p procs (q ∷ running) h = elim (Bool-cases (q == p)) [
  | inl e ↦ rw e (without-Tracked p procs running h.1)
  | inr e ↦ rw e (has-remove p q procs e h.0, without-Tracked p procs running h.1)
]

popen-Keeps : (h : Host) → Keeps Tracked (popen h)
unfolding popen
popen-Keeps h w t = go (h.spawns w.next) refl
  where
    go : (r : Result (Unit {0})) → h.spawns w.next ≡ r → Tracked (popen h w).1
    go (raise e) es = rw (es, popen) t
    go (ok u) es =
        rw (es, popen)
          (has_last w.next w.procs, All-map _ _ w.running (λ p e. has-append p w.next w.procs e) t)

stop-Keeps : (h : Host) (p : ℕ) → Keeps Tracked (stop h p)
unfolding stop
stop-Keeps h p w t = go (h.waits p) refl
  where
    go : (r : Wait) → h.waits p ≡ r → Tracked (stop h p w).1
    go ended e = rw (e, stop) (without-Tracked p w.procs w.running t)
    go late e = rw (e, stop) (without-Tracked p w.procs w.running t)
    go (broke x) e = rw (e, stop) t

still_has :
    (p : ℕ) (ps running : List ℕ)
    → All (λ q. has q (p ∷ ps) ≡ true) running
    → All (λ q. has q ps ≡ true) (without p running)
still_has p ps [] h = tt
still_has p ps (q ∷ running) h = elim (Bool-cases (q == p)) [
  | inl e ↦ rw e (still_has p ps running h.1)
  | inr e ↦ rw e (rw e at h.0, still_has p ps running h.1)
]

kill_all-Tracked :
    (procs running : List ℕ) → All (λ p. has p procs ≡ true) running → kill_all procs running ≡ []
kill_all-Tracked [] [] h = refl
kill_all-Tracked [] (p ∷ running) h = absurd (false-ne-true h.0)
kill_all-Tracked (p ∷ ps) running h =
    kill_all-Tracked ps (without p running) (still_has p ps running h)

abbrev pub fails : Result (Unit {0}) → Bool
fails (ok u) = false
fails (raise e) = true

-- the build, from what its steps come to
abbrev build : Result (Unit {0}) → Result (Unit {0}) → Result (Unit {0}) → Act (Unit {0})
build a b c = host a >> (host b >> (set_worktree true >> host c))

build-Keeps : (a b c : Result (Unit {0})) → Keeps Tracked (build a b c)
build-Keeps (raise e) b c w t = t
build-Keeps (ok u) (raise e) c w t = t
build-Keeps (ok u) (ok v) c w t = t

experiment-finish :
    (h : Host) (workers : ℕ) (runs : List Bool) (w : World)
    → experiment h workers runs w
      ≡ finish h workers runs (build h.builds_upgraded h.adds_worktree h.builds_original w)
unfolding experiment build_gateways
experiment-finish h workers runs w = refl

running-remove_worktree :
    (h : Host) (gone : Result Bool) (x : Result (Unit {0}) × World)
    → (remove_worktree h gone x).1.running ≡ x.1.running
running-remove_worktree h (raise e) x = refl
running-remove_worktree h (ok b) x = refl

finish_empty :
    (h : Host) (workers : ℕ) (runs : List Bool) (r : Result (Unit {0})) (w : World)
    → Tracked w
    → (finish h workers runs (r, w)).1.running ≡ []
unfolding finish
finish_empty h workers runs (raise e) w t = kill_all-Tracked w.procs w.running t
finish_empty h workers runs (ok u) w t =
    running-remove_worktree h h.removes_worktree _
    ∙ kill_all-Tracked _ _
        (measure_all-Keeps Tracked h (popen-Keeps h) (stop-Keeps h) workers runs w t)

-- Whatever the host does (a process that cannot be started, a worker or a gateway that does not
-- become healthy, an exception of any kind in the build, in a measurement or while waiting for a
-- process to end), no process that the experiment has started is running afterwards.
pub experiment-running :
    (h : Host) (workers : ℕ) (runs : List Bool) → (experiment h workers runs start).1.running ≡ []
experiment-running h workers runs = rw (experiment-finish h workers runs start) (
    finish_empty h workers runs _ _
      (build-Keeps h.builds_upgraded h.adds_worktree h.builds_original start tt))

-- `git worktree remove` was run, with exit status 0.
abbrev pub removed : Result Bool → Bool
removed (ok gone) = gone
removed (raise e) = false

worktree-remove_worktree :
    (h : Host) (gone : Result Bool) (x : Result (Unit {0}) × World)
    → x.1.worktree ≡ true
    → ((remove_worktree h gone x).1.worktree ≡ true) ↔ (removed gone ≡ false)
worktree-remove_worktree h (raise e) x p = (λ q. refl, λ q. p)
worktree-remove_worktree h (ok true) x p =
    (λ q. absurd (false-ne-true q), λ q. absurd (false-ne-true (sym q)))
worktree-remove_worktree h (ok false) x p = (λ q. refl, λ q. p)

abbrev HasTree : World → Type 0
HasTree w = w.worktree ≡ true

popen-HasTree : (h : Host) → Keeps HasTree (popen h)
unfolding popen
popen-HasTree h w t = go (h.spawns w.next) refl
  where
    go : (r : Result (Unit {0})) → h.spawns w.next ≡ r → HasTree (popen h w).1
    go (raise e) es = rw (es, popen) t
    go (ok u) es = rw (es, popen) t

stop-HasTree : (h : Host) (p : ℕ) → Keeps HasTree (stop h p)
unfolding stop
stop-HasTree h p w t = go (h.waits p) refl
  where
    go : (r : Wait) → h.waits p ≡ r → HasTree (stop h p w).1
    go ended e = rw (e, stop) t
    go late e = rw (e, stop) t
    go (broke x) e = rw (e, stop) t

finish_worktree :
    (h : Host) (workers : ℕ) (runs : List Bool) (a b c : Result (Unit {0}))
    → ((finish h workers runs (build a b c start)).1.worktree ≡ true)
      ↔ ((a ≡ ok tt) × (b ≡ ok tt) × ((fails c ≡ true) ⊎ (removed h.removes_worktree ≡ false)))
unfolding finish
finish_worktree h workers runs (raise e) b c =
    (λ p. absurd (false-ne-true p), λ (p, q, r). absurd (false-ne-true (ap fails (sym p))))
finish_worktree h workers runs (ok u) (raise e) c =
    (λ p. absurd (false-ne-true p), λ (p, q, r). absurd (false-ne-true (ap fails (sym q))))
finish_worktree h workers runs (ok u) (ok v) (raise e) = (λ p. (refl, refl, inl refl), λ q. refl)
finish_worktree h workers runs (ok u) (ok v) (ok x) =
    let tree : HasTree (measure_all h workers runs (record start { worktree = true })).1 =
      measure_all-Keeps HasTree h (popen-HasTree h) (stop-HasTree h) workers runs _ refl in
    let (there, back) =
      worktree-remove_worktree h h.removes_worktree
        (let (r, w) = measure_all h workers runs (record start { worktree = true }) in (r, close w))
        tree in
    (
      λ p. (refl, refl, inr (there p)),
      λ (p, q, r). elim r [ inl e ↦ absurd (false-ne-true e) | inr e ↦ back e ],
    )

-- The experiment leaves its git worktree behind exactly if the worktree was added and either the build
-- of the original gateway in it failed, which skips the removal, or `git worktree remove` at the end
-- could not be run or had an exit status other than 0, which nothing reports.
pub experiment-worktree :
    (h : Host) (workers : ℕ) (runs : List Bool)
    → ((experiment h workers runs start).1.worktree ≡ true) ↔ (
        (h.builds_upgraded ≡ ok tt)
        × (h.adds_worktree ≡ ok tt)
        × ((fails h.builds_original ≡ true) ⊎ (removed h.removes_worktree ≡ false)))
experiment-worktree h workers runs =
    rw (experiment-finish h workers runs start)
      (finish_worktree h workers runs h.builds_upgraded h.adds_worktree h.builds_original)
