-- ===== src/RealEngine/Fleet/Keeps.antt =====
-- What the actions of an experiment keep.
use radixgates.Base.{ℕ, zero, suc, List, [], ◌∷◌, Bool, true, false, ◌≡◌, refl}
use radixgates.Python.{Result, ok, raise}
use radixgates.RealEngine.Fleet.{
  World, Host, Act, next_act, ◌>>=◌, ◌>>◌, host, popen, wait_healthy, popen_all, wait_all,
  start_workers, start_gateway, stop, run_one, run_all, measure_all,
}

-- An action keeps a property of the world, whether it returns or raises.
abbrev pub Keeps : {A : Type 0} → (World → Type 0) → Act A → Type 0
Keeps P m = (w : World) → P w → P (m w).1

>>=-Keeps :
    {A B : Type 0} (P : World → Type 0) (m : Act A) (k : A → Act B)
    → Keeps P m
    → ((a : A) → Keeps P (k a))
    → Keeps P (m >>= k)
>>=-Keeps P m k hm hk w t = go (m w) (hm w t)
  where
    go : (r : Result _ × World) → P r.1 → P (next_act r k).1
    go (ok a, w') t' = hk a w' t'
    go (raise e, w') t' = t'

wait_healthy-Keeps : (P : World → Type 0) (h : Host) (p : ℕ) → Keeps P (wait_healthy h p)
unfolding wait_healthy
wait_healthy-Keeps P h p w t = go (h.healthy p) refl
  where
    go : (r : Result Bool) → h.healthy p ≡ r → P (wait_healthy h p w).1
    go (raise e) es = rw (es, wait_healthy) t
    go (ok b) es = rw (es, wait_healthy) t

-- What the start and the stop of a process keep, all that follows the build keeps.
module _ (P : World → Type 0) (h : Host) (popen-P : Keeps P (popen h))
    (stop-P : (p : ℕ) → Keeps P (stop h p)) where
  popen_all-Keeps : (n : ℕ) → Keeps P (popen_all h n)
  unfolding popen_all
  popen_all-Keeps zero = λ w t. t
  popen_all-Keeps (suc n) =
      >>=-Keeps P (popen h) (λ p. popen_all h n >>= λ ps. host (ok (p ∷ ps))) popen-P
        λ p. >>=-Keeps P (popen_all h n) (λ ps. host (ok (p ∷ ps))) (popen_all-Keeps n) λ ps w t. t

  wait_all-Keeps : (ps : List ℕ) → Keeps P (wait_all h ps)
  unfolding wait_all
  wait_all-Keeps [] = λ w t. t
  wait_all-Keeps (p ∷ ps) =
      >>=-Keeps P (wait_healthy h p) (λ _. wait_all h ps) (wait_healthy-Keeps P h p)
        λ _. wait_all-Keeps ps

  start_gateway-Keeps : Keeps P (start_gateway h)
  unfolding start_gateway
  start_gateway-Keeps =
      >>=-Keeps P (popen h) (λ p. wait_healthy h p >> host (ok p)) popen-P
        λ p. >>=-Keeps P (wait_healthy h p) (λ _. host (ok p)) (wait_healthy-Keeps P h p) λ _ w t. t

  run_one-Keeps : (gateway : Bool) (n : ℕ) → Keeps P (run_one h gateway n)
  unfolding run_one
  run_one-Keeps false n = λ w t. t
  run_one-Keeps true n =
      >>=-Keeps P (start_gateway h) (λ gw. host (h.measures n) >> stop h gw) (start_gateway-Keeps)
        λ gw. >>=-Keeps P (host (h.measures n)) (λ _. stop h gw) (λ w t. t) λ _. stop-P gw

  run_all-Keeps : (runs : List Bool) (n : ℕ) → Keeps P (run_all h runs n)
  unfolding run_all
  run_all-Keeps [] n = λ w t. t
  run_all-Keeps (gateway ∷ runs) n =
      >>=-Keeps P (run_one h gateway n) (λ _. run_all h runs (suc n)) (run_one-Keeps gateway n)
        λ _. run_all-Keeps runs (suc n)

  pub measure_all-Keeps : (workers : ℕ) (runs : List Bool) → Keeps P (measure_all h workers runs)
  unfolding measure_all start_workers
  measure_all-Keeps workers runs =
      >>=-Keeps P (start_workers h workers) (λ _. host h.warms >> run_all h runs 0)
        (>>=-Keeps P (popen_all h workers) (wait_all h) (popen_all-Keeps workers) (wait_all-Keeps))
        λ _. >>=-Keeps P (host h.warms) (λ _. run_all h runs 0) (λ w t. t) λ _. run_all-Keeps runs 0
