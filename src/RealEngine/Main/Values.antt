-- ===== src/RealEngine/Main/Values.antt =====
-- The results with which `main` goes on to the report, when the host does what it is asked to.
use radixgates.Base.{
  false-ne-true, ℕ, zero, suc, ◌≡◌, refl, sym, ◌∙◌, ap, List, [], ◌∷◌, ◌++◌, Bool, true, false, Str,
}
use radixgates.Python.{Result, ok, raise, ◌>>=◌}
use radixgates.RealEngine.Fleet.{
  World, Wait, ended, late, broke, Host, Act, next_act, host, has, popen, wait_healthy, popen_all,
  wait_all, start_workers, start_gateway, ◌>>◌, stop, build_gateways,
}
use radixgates.RealEngine.Fleet.Laws.{has_last}
use radixgates.RealEngine.Report.{
  Measured, Results, append_to, add_policies, run_policies, run_repeats, measure_repeats,
}
use radixgates.RealEngine.Main.{
  Runs, has_gateway, run_measured, run_row, run_rows, run_fleet, finish_fleet, main_results,
}

abbrev is_broken : Wait → Bool
is_broken (broke e) = true
is_broken _ = false

-- Everything is built, every process starts, becomes healthy and can be waited for, the warming goes
-- through, and `git worktree remove` can be run, whether or not it succeeds.
abbrev pub IsFine : Host → Type 0
IsFine h =
    (h.builds_upgraded ≡ ok tt)
    × (h.adds_worktree ≡ ok tt)
    × (h.builds_original ≡ ok tt)
    × (h.warms ≡ ok tt)
    × ((p : ℕ) → h.spawns p ≡ ok tt)
    × ((p : ℕ) → h.healthy p ≡ ok true)
    × ((p : ℕ) → is_broken (h.waits p) ≡ false)
    × ((gone : Bool) × (h.removes_worktree ≡ ok gone))

next_value :
    {A B : Type 0} (x : Result A × World) (r : Result A) (k : A → Act B) (l : A → Result B)
    → x.0 ≡ r
    → ((a : A) (w : World) → (k a w).0 ≡ l a)
    → (next_act x k).0 ≡ (r >>= l)
next_value (ok a, w) r k l e f = rw (sym e) (f a w)
next_value (raise z, w) r k l e f = rw (sym e) refl

module _ (h : Host) (fine : IsFine h) where
  stop_value : (p : ℕ) (w : World) → has p w.procs ≡ true → (stop h p w).0 ≡ ok tt
  unfolding stop
  stop_value p w e = go (h.waits p) refl
    where
      go : (r : Wait) → h.waits p ≡ r → (stop h p w).0 ≡ ok tt
      go ended q = rw (q, stop, e) refl
      go late q = rw (q, stop, e) refl
      go (broke z) q = absurd (false-ne-true (sym (fine.6 p) ∙ ap is_broken q))

  started : World → World
  started w = record w {
    next = suc w.next;
    running = w.next ∷ w.running;
    procs = w.procs ++ (w.next ∷ []);
  }

  popen_value : (w : World) → popen h w ≡ (ok w.next, started w)
  unfolding popen started
  popen_value w = rw (popen, fine.4 w.next) refl

  wait_healthy_value : (p : ℕ) (w : World) → wait_healthy h p w ≡ (ok tt, w)
  unfolding wait_healthy
  wait_healthy_value p w = rw (wait_healthy, fine.5 p) refl

  start_gateway_value : (w : World) → start_gateway h w ≡ (ok w.next, started w)
  unfolding start_gateway
  start_gateway_value w = rw (popen_value w, wait_healthy_value w.next (started w)) refl

  measured_then_stop :
      (r : Result Measured) (p : ℕ) (w : World) (add : Measured → Result Results)
      → has p w.procs ≡ true
      → (next_act (host r w) (λ s w₁. next_act (host (add s) w₁) (λ d. stop h p >> host (ok d)))).0
        ≡ (r >>= add)
  measured_then_stop (raise z) p w add e = refl
  measured_then_stop (ok s) p w add e = added (add s)
    where
      added : (o : Result Results) → (next_act (host o w) (λ d. stop h p >> host (ok d))).0 ≡ o
      added (raise z) = refl
      added (ok d) =
          next_value (stop h p w) (ok tt) (λ _. host (ok d)) (λ _. ok d) (stop_value p w e)
            (λ u w'. refl)

  run_measured_value :
      (r : Result Measured) (policy : Str) (d : Results) (gateway : Bool) (w : World)
      → (run_measured h r policy d gateway w).0 ≡ (r >>= λ s. append_to policy s d)
  unfolding run_measured started
  run_measured_value (ok s) policy d false w = refl
  run_measured_value (raise z) policy d false w = refl
  run_measured_value r policy d true w = rw (start_gateway_value w) (
      measured_then_stop r w.next (started w) (λ s. append_to policy s d) (has_last w.next w.procs))

  run_row_value :
      (m : Runs) (rep : ℕ) (policies : List Str) (d : Results) (w : World)
      → (run_row h m rep policies d w).0 ≡ run_policies (m rep) policies d
  unfolding run_row run_policies
  run_row_value m rep [] d w = refl
  run_row_value m rep (p ∷ ps) d w =
      next_value (run_measured h (m rep p) p d (has_gateway p) w) _ (run_row h m rep ps)
        (run_policies (m rep) ps) (run_measured_value (m rep p) p d (has_gateway p) w)
        (run_row_value m rep ps)
      ∙ added (m rep p) p d (run_policies (m rep) ps)
    where
      added :
          (r : Result Measured) (q : Str) (d' : Results) (k : Results → Result Results)
          → ((r >>= λ s. append_to q s d') >>= k) ≡ (r >>= λ s. append_to q s d' >>= k)
      added (ok s) q d' k = refl
      added (raise z) q d' k = refl

  run_rows_value :
      (m : Runs) (policies : List Str) (n rep : ℕ) (d : Results) (w : World)
      → (run_rows h m policies n rep d w).0 ≡ run_repeats m policies n rep d
  unfolding run_rows run_repeats
  run_rows_value m policies zero rep d w = refl
  run_rows_value m policies (suc n) rep d w =
      next_value (run_row h m rep policies d w) _ (run_rows h m policies n (suc rep))
        (run_repeats m policies n (suc rep)) (run_row_value m rep policies d w)
        (run_rows_value m policies n (suc rep))

  popen_all_value : (n : ℕ) (w : World) → (l : List ℕ) × ((popen_all h n w).0 ≡ ok l)
  unfolding popen_all
  popen_all_value zero w = ([], refl)
  popen_all_value (suc n) w =
      let (ps, e) = popen_all_value n (started w) in
      (
        w.next ∷ ps,
        rw (popen_value w) (
            next_value (popen_all h n (started w)) (ok ps) (λ l. host (ok (w.next ∷ l)))
              (λ l. ok (w.next ∷ l)) e (λ l w'. refl)),
      )

  wait_all_value : (ps : List ℕ) (w : World) → (wait_all h ps w).0 ≡ ok tt
  unfolding wait_all
  wait_all_value [] w = refl
  wait_all_value (p ∷ ps) w = rw (wait_healthy_value p w) (wait_all_value ps w)

  start_workers_value : (workers : ℕ) (w : World) → (start_workers h workers w).0 ≡ ok tt
  unfolding start_workers
  start_workers_value workers w =
      let (l, e) = popen_all_value workers w in
      next_value (popen_all h workers w) (ok l) (wait_all h) (λ _. ok tt) e wait_all_value

  run_fleet_value :
      (workers : ℕ) (m : Runs) (policies : List Str) (repeats : ℕ) (w : World)
      → (run_fleet h workers m policies repeats w).0 ≡ measure_repeats m policies repeats
  unfolding run_fleet measure_repeats
  run_fleet_value workers m policies repeats w =
      next_value (start_workers h workers w) (ok tt) _
        (λ _. run_repeats m policies repeats 0 (add_policies policies []))
        (start_workers_value workers w)
        (λ u w'. rw (fine.3) (run_rows_value m policies repeats 0 (add_policies policies []) w'))

  build_gateways_value : (w : World) → build_gateways h w ≡ (ok tt, record w { worktree = true })
  unfolding build_gateways
  build_gateways_value w = rw (fine.0, fine.1, fine.2) refl

-- With a host that does what it is asked to, `main` comes to the results that its loops make of the
-- measurements, in the order of the repeats and the policies, or to the first exception that a
-- measurement raises; the processes started and stopped between make no difference.
pub main_results-measure_repeats :
    (h : Host) (workers : ℕ) (m : Runs) (policies : List Str) (repeats : ℕ) (w : World)
    → IsFine h
    → (main_results h workers m policies repeats w).0 ≡ measure_repeats m policies repeats
unfolding main_results finish_fleet
main_results-measure_repeats h workers m policies repeats w fine =
    rw (build_gateways_value h fine w, fine.7.1)
      (run_fleet_value h fine workers m policies repeats (record w { worktree = true }))
