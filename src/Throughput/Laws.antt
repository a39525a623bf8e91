-- ===== src/Throughput/Laws.antt =====
-- What the summary of a load test counts and measures.
use radixgates.Base.{ℕ, suc, ◌≡◌, refl, Bool, true, false, List, [], ◌∷◌}
use radixgates.Base.{Str, lit, if◌then◌else◌, ◌++◌}
use radixgates.Base.{
  arith, ◌+◌, not, ◌∙◌, keep, map, All, sym, ap, count_if, append-nil, append_assoc,
}
use radixgates.Base.Int.{ℤ, ◌-ℤ◌}
use radixgates.Python.{Result, ok, raise, ◌>>=◌, or_raise, json_error, http_error, is_exception}
use radixgates.Python.Json.{Json, str, Codec, by_key, first_item}
use radixgates.Python.Catch.{
  Catchable, >>=-Catchable, or_raise-Catchable, by_key-Catchable, first_item-Catchable,
}
use native.Mathlib.Nat.{add-zero}
use radixgates.Throughput.{
  Reply, lost, reply, Exchange, Service, is_failure, strip_text, read_answer, outcome_of, Tally,
  no_results, add_outcome, collect, Latency, latency_of, throughput,
}

-- Nothing but an `Exception` keeps a request from its answer.
abbrev pub IsCalm : Reply → Type 0
IsCalm (lost e) = is_exception e ≡ true
IsCalm (reply status body) = Unit

strip_text-Catchable : (v : Json) → Catchable (strip_text v)
unfolding strip_text
strip_text-Catchable (str s) = tt
strip_text-Catchable _ = refl

read_answer-Catchable : (c : Codec) (r : Reply) → IsCalm r → Catchable (read_answer c r)
unfolding read_answer
read_answer-Catchable c (lost e) h = h
read_answer-Catchable c (reply status body) h =
    >>=-Catchable (if is_failure status then raise http_error else ok (tt {0})) _
      (status_Catchable (is_failure status))
      λ _.
        >>=-Catchable (or_raise (c.loads body) json_error) _ (or_raise-Catchable _ json_error refl)
          λ d.
            >>=-Catchable (by_key d (lit "choices")) _ (by_key-Catchable d (lit "choices"))
              λ choices.
                >>=-Catchable (first_item choices) _ (first_item-Catchable choices) λ choice.
                  >>=-Catchable (by_key choice (lit "message")) _
                    (by_key-Catchable choice (lit "message"))
                    λ message.
                      >>=-Catchable (by_key message (lit "content")) _
                        (by_key-Catchable message (lit "content"))
                        λ content.
                          >>=-Catchable (strip_text content) _ (strip_text-Catchable content)
                            λ t. tt
  where
    status_Catchable : (b : Bool) → Catchable {A = Unit {0}} (if b then raise http_error else ok tt)
    status_Catchable true = refl
    status_Catchable false = tt

abbrev pub is_ok : Result Str → Bool
is_ok (ok a) = true
is_ok (raise e) = false

-- One answered or failed request more.
abbrev counted : Bool → ℤ → Tally → Tally
counted b t s =
    if b
    then record s { success = suc s.success; latencies = s.latencies ++ (t ∷ []) }
    else record s { fail = suc s.fail }

Tally_path :
    {s s' f f' : ℕ} {l l' : List ℤ}
    → s ≡ s'
    → f ≡ f'
    → l ≡ l'
    → ◌≡◌ {A = Result Tally}
        (ok (record { success = s; fail = f; latencies = l }))
        (ok (record { success = s'; fail = f'; latencies = l' }))
Tally_path p q r = λ i. ok (record { success = p i; fail = q i; latencies = r i })

counted_sums :
    (b : Bool) (d : ℤ) (t : Tally) (s f : ℕ) (l : List ℤ)
    → ◌≡◌ {A = Result Tally}
        (ok (record {
          success = s + (counted b d t).success;
          fail = f + (counted b d t).fail;
          latencies = (counted b d t).latencies ++ l;
        }))
        (ok (record {
          success = (if b then 1 else 0) + s + t.success;
          fail = (if not b then 1 else 0) + f + t.fail;
          latencies = t.latencies ++ (if b then d ∷ l else l);
        }))
counted_sums true d t s f l =
    Tally_path (omega arith) (omega arith) (append_assoc t.latencies (d ∷ []) l)
counted_sums false d t s f l = Tally_path (omega arith) (omega arith) refl

map_if :
    (g : ℕ → ℤ) (b : Bool) (x : ℕ) (xs : List ℕ)
    → (if b then g x ∷ map g xs else map g xs) ≡ map g (if b then x ∷ xs else xs)
map_if g true x xs = refl
map_if g false x xs = refl

outcome_of-counted :
    (x : Exchange) (m : Result Str) (k : Tally → Result Tally) (t : Tally)
    → Catchable m
    → (outcome_of x m >>= λ o. k (add_outcome t o)) ≡ k (counted (is_ok m) (x.received -ℤ x.sent) t)
unfolding outcome_of add_outcome
outcome_of-counted x (ok a) k t h = refl
outcome_of-counted x (raise e) k t h = rw h

module _ (c : Codec) (serve : Service) (payload : ℕ → Json) where
  abbrev pub exchange : ℕ → Exchange
  exchange i = serve i (payload i)

  -- Whether the i-th request brings an answer of the right shape.
  unfoldable pub answered : ℕ → Bool
  answered i = is_ok (read_answer c (exchange i).result)

  unfoldable pub elapsed : ℕ → ℤ
  elapsed i = (exchange i).received -ℤ (exchange i).sent

  -- How long the answered ones among some requests took.
  unfoldable pub answer_times : List ℕ → List ℤ
  answer_times order = map elapsed (keep answered order)

  collect_step :
      (i : ℕ) (order : List ℕ) (t : Tally)
      → IsCalm (exchange i).result
      → collect c serve payload (i ∷ order) t
        ≡ collect c serve payload order (counted (answered i) (elapsed i) t)
  unfolding collect answered elapsed
  collect_step i order t calm =
      outcome_of-counted (exchange i) (read_answer c (exchange i).result)
        (collect c serve payload order) t (read_answer-Catchable c (exchange i).result calm)

  collect-Tally :
      (order : List ℕ) (t : Tally)
      → All (λ i. IsCalm (exchange i).result) order
      → collect c serve payload order t
        ≡ ok (record {
          success = count_if answered order + t.success;
          fail = count_if (λ i. not (answered i)) order + t.fail;
          latencies = t.latencies ++ answer_times order;
        })
  unfolding answer_times collect
  collect-Tally [] t calm = Tally_path (omega arith) (omega arith) (sym (append-nil t.latencies))
  collect-Tally (i ∷ order) t calm =
      collect_step i order t calm.0
      ∙ collect-Tally order (counted (answered i) (elapsed i) t) calm.1
      ∙ counted_sums (answered i) (elapsed i) t (count_if answered order)
          (count_if (λ j. not (answered j)) order) (answer_times order)
      ∙ Tally_path refl refl
          (ap (λ l. t.latencies ++ l) (map_if elapsed (answered i) i (keep answered order)))

  pub throughput-Report :
      (total : ℤ) (order : List ℕ) (l : Latency)
      → All (λ i. IsCalm (exchange i).result) order
      → latency_of (answer_times order) ≡ ok l
      → throughput c serve payload total order
        ≡ ok (record {
          wall = total;
          success = count_if answered order;
          fail = count_if (λ i. not (answered i)) order;
          latency = l;
        })
  unfolding throughput
  throughput-Report total order l calm e = rw (collect-Tally order no_results calm) (
      rw e (λ i. ok (record {
        wall = total;
        success = add-zero (count_if answered order) i;
        fail = add-zero (count_if (λ j. not (answered j)) order) i;
        latency = l;
      })))
