-- ===== src/RealEngine/Main/Runs.antt =====
-- With its results forgotten, `main` is the experiment of RealEngine/Fleet.
use radixgates.Base.{
  ℕ, zero, suc, ◌+◌, ◌≡◌, refl, sym, ◌∙◌, ap, List, [], ◌∷◌, ◌++◌, map, length, Bool, Str, arith,
}
use radixgates.Python.{Result, ok, raise}
use radixgates.RealEngine.Fleet.{
  World, Host, Act, next_act, host, start_workers, close, build_gateways, run_all, measure_all,
  finish, experiment, start, remove_worktree,
}
use radixgates.RealEngine.Fleet.Laws.{experiment-running}
use radixgates.RealEngine.Report.Keys.{Present, Present-same, Present-add_policies}
use radixgates.RealEngine.Report.{Results, add_policies}
use radixgates.RealEngine.Main.{
  Runs, has_gateway, run_measured, run_row, run_rows, run_fleet, finish_fleet, main_results,
}
use radixgates.RealEngine.Main.Steps.{
  done, forget, SameKeys, run_measured-run_one, run_measured-SameKeys,
}

-- The host's measurements from the n-th on come out as those of the policies.
abbrev pub Agrees : Host → Runs → ℕ → List Str → ℕ → Type 0
Agrees h m rep [] n = Unit
Agrees h m rep (p ∷ ps) n = (h.measures n ≡ done (m rep p)) × Agrees h m rep ps (suc n)

abbrev pub AllAgree : Host → Runs → List Str → ℕ → ℕ → ℕ → Type 0
AllAgree h m policies zero rep n = Unit
AllAgree h m policies (suc k) rep n =
    Agrees h m rep policies n × AllAgree h m policies k (suc rep) (n + length policies)

-- whether each run of the repeats has a gateway
abbrev pub gateways : List Str → ℕ → List Bool
gateways policies zero = []
gateways policies (suc k) = map has_gateway policies ++ gateways policies k

-- one step, and what follows it
next_forget :
    {A : Type 0} (x : Result A × World) (y : Result (Unit {0}) × World) (k : A → Act Results)
    (l : Act (Unit {0}))
    → forget x ≡ y
    → ((a : A) (w : World) → x.0 ≡ ok a → forget (k a w) ≡ l w)
    → forget (next_act x k) ≡ next_act y (λ _. l)
next_forget (ok a, w) y k l e f = rw (sym e) (f a w refl)
next_forget (raise z, w) y k l e f = rw (sym e) refl

next_act_assoc :
    {A B C : Type 0} (x : Result A × World) (k : A → Act B) (l : B → Act C)
    → next_act (next_act x k) l ≡ next_act x (λ a w. next_act (k a w) l)
next_act_assoc (ok a, w) k l = refl
next_act_assoc (raise e, w) k l = refl

zero_right : (n : ℕ) → n + 0 ≡ n
zero_right n = omega arith

suc_right : (n k : ℕ) → n + suc k ≡ suc n + k
suc_right n k = omega arith

run_row-run_all :
    (h : Host) (m : Runs) (rep n : ℕ) (policies : List Str) (d : Results) (w : World)
    (k : Results → Act Results) (more : List Bool)
    → Agrees h m rep policies n
    → Present policies d
    → ((d' : Results) (w' : World)
        → SameKeys d d'
        → forget (k d' w') ≡ run_all h more (n + length policies) w')
    → forget (next_act (run_row h m rep policies d w) k)
      ≡ run_all h (map has_gateway policies ++ more) n w
unfolding run_row run_all
run_row-run_all h m rep n [] d w k more a p f =
    f d w (λ q. refl) ∙ ap (λ i. run_all h more i w) (zero_right n)
run_row-run_all h m rep n (q ∷ ps) d w k more a p f =
    ap forget
      (next_act_assoc (run_measured h (m rep q) q d (has_gateway q) w) (run_row h m rep ps) k)
    ∙ next_forget _ _ _ (run_all h (map has_gateway ps ++ more) (suc n))
        (run_measured-run_one h (m rep q) q d (has_gateway q) n w p.0 a.0)
        (λ d' w' e.
          let same = run_measured-SameKeys h (m rep q) q d (has_gateway q) w d' p.0 e in
          run_row-run_all h m rep (suc n) ps d' w' k more a.1 (Present-same ps d d' same p.1)
            (λ d'' w'' same'.
              f d'' w'' (λ r. same' r ∙ same r)
              ∙ ap (λ i. run_all h more i w'') (suc_right n (length ps))))

run_rows-run_all :
    (h : Host) (m : Runs) (policies : List Str) (k rep n : ℕ) (d : Results) (w : World)
    → AllAgree h m policies k rep n
    → Present policies d
    → forget (run_rows h m policies k rep d w) ≡ run_all h (gateways policies k) n w
unfolding run_rows run_all
run_rows-run_all h m policies zero rep n d w a p = refl
run_rows-run_all h m policies (suc k) rep n d w a p =
    run_row-run_all h m rep n policies d w (run_rows h m policies k (suc rep)) (gateways policies k)
      a.0 p
      (λ d' w' same.
        run_rows-run_all h m policies k (suc rep) (n + length policies) d' w' a.1
          (Present-same policies d d' same p))

forget_after :
    {A : Type 0} (x : Result A × World) (k : A → Act Results) (l : A → Act (Unit {0}))
    → ((a : A) (w : World) → forget (k a w) ≡ l a w)
    → forget (next_act x k) ≡ next_act x l
forget_after (ok a, w) k l f = f a w
forget_after (raise e, w) k l f = refl

forget-remove_worktree :
    (h : Host) (gone : Result Bool) (x : Result Results × World)
    → forget (remove_worktree h gone (x.0, close x.1))
      ≡ remove_worktree h gone ((forget x).0, close (forget x).1)
forget-remove_worktree h (raise e) x = refl
forget-remove_worktree h (ok b) x = refl

module _ (h : Host) (workers : ℕ) (m : Runs) (policies : List Str) (repeats : ℕ) where
  run_fleet-measure_all :
      (w : World)
      → AllAgree h m policies repeats 0 0
      → forget (run_fleet h workers m policies repeats w)
        ≡ measure_all h workers (gateways policies repeats) w
  unfolding run_fleet measure_all
  run_fleet-measure_all w a = forget_after (start_workers h workers w) _ _ (λ u w'.
      forget_after (host h.warms w') _ _ (λ u' w''.
        run_rows-run_all h m policies repeats 0 0 (add_policies policies []) w'' a
          (Present-add_policies policies [])))

  finish_fleet-finish :
      (b : Result (Unit {0}) × World)
      → AllAgree h m policies repeats 0 0
      → forget (finish_fleet h workers m policies repeats b)
        ≡ finish h workers (gateways policies repeats) b
  unfolding finish_fleet finish close
  finish_fleet-finish (raise e, w) a = refl
  finish_fleet-finish (ok u, w) a =
      forget-remove_worktree h h.removes_worktree (run_fleet h workers m policies repeats w)
      ∙ ap
          (λ (x : Result (Unit {0}) × World). remove_worktree h h.removes_worktree (x.0, close x.1))
          (run_fleet-measure_all w a)

-- If the host's measurements come out as those of the repeats, then `main` with its results, for
-- every list of policies, has the effects of the experiment and ends as it does: it raises the same
-- exception, or returns. So no process that it has started is running after it, whatever happens.
pub main_results-experiment :
    (h : Host) (workers : ℕ) (m : Runs) (policies : List Str) (repeats : ℕ)
    → AllAgree h m policies repeats 0 0
    → ((w : World)
        → forget (main_results h workers m policies repeats w)
          ≡ experiment h workers (gateways policies repeats) w)
      × ((main_results h workers m policies repeats start).1.running ≡ [])
unfolding main_results experiment
main_results-experiment h workers m policies repeats a =
    let same : (w : World)
        → forget (main_results h workers m policies repeats w)
          ≡ experiment h workers (gateways policies repeats) w =
      λ w. finish_fleet-finish h workers m policies repeats (build_gateways h w) a in
    (
      same,
      ap (λ (x : Result (Unit {0}) × World). x.1.running) (same start)
          ∙ experiment-running h workers (gateways policies repeats),
    )
