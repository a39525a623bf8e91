-- ===== src/RealEngine/Share.antt =====
-- How the round-robin policy spreads requests: by the remainders of the counter.
use native.Mathlib.Nat.{mod-eq_of_lt, add-mod_left, div-add-mod, mod-lt}
use radixgates.Base.{
  ℕ, zero, suc, List, [], ◌∷◌, ◌++◌, Bool, true, ◌≡◌, refl, ap, ap₂, sym, ◌∙◌, Str, lit,
}
use radixgates.Base.{
  ◌+◌, ◌*◌, ◌/◌, ◌%◌, ◌==◌, ◌<◌, ◌≤◌, ltb, length, get_elem?, count_if, range_from, if◌then◌else◌,
  arith, map, Bool-cases, inl, inr,
}
use radixgates.Python.{ok_injective, Exc, Result, ok, raise, or_raise, index_error, >>=-eq-ok}
use radixgates.Python.Json.{Codec}
use radixgates.RealEngine.{
  Args, Servers, Sent, worker_base_port, turn, row_of, body, is_roundrobin, target, one, run_from,
  run_policy,
}

-- one more number at the end
range_from-suc : (n i : ℕ) → range_from (suc n) i ≡ range_from n i ++ ((n + i) ∷ [])
range_from-suc zero i = ap (λ k. k ∷ []) (omega arith)
range_from-suc (suc n) i =
    ap (λ l. i ∷ l) (range_from-suc n (suc i))
    ∙ ap (λ k. i ∷ (range_from n (suc i) ++ (k ∷ []))) (omega arith)

count_if-append :
    {A : Type 0} (p : A → Bool) (xs ys : List A)
    → count_if p (xs ++ ys) ≡ count_if p xs + count_if p ys
count_if-append p [] ys = omega arith
count_if-append p (x ∷ xs) ys = omega (arith, count_if-append p xs ys)

-- the numbers below k + 1 that pass a test
pub count_if-range :
    (p : ℕ → Bool) (k : ℕ)
    → count_if p (range_from (suc k) 0) ≡ count_if p (range_from k 0) + (if p k then 1 else 0)
count_if-range p k =
    ap (count_if p) (range_from-suc k 0)
    ∙ count_if-append p (range_from k 0) ((k + 0) ∷ [])
    ∙ ap (λ n. count_if p (range_from k 0) + ((if p n then 1 else 0) + 0)) (add_zero k)
    ∙ omega arith
  where
    add_zero : (n : ℕ) → n + 0 ≡ n
    add_zero n = omega arith

module _ (w i : ℕ) where
  -- how many of the first k numbers leave the remainder i
  abbrev remainders : ℕ → ℕ
  remainders k = count_if (λ n. n % w == i) (range_from k 0)

  remainder_of : (q r : ℕ) → r < w → (q * w + r) % w ≡ r
  remainder_of zero r h = let e : 0 * w + r ≡ r = omega arith in ap (λ n. n % w) e ∙ mod-eq_of_lt h
  remainder_of (suc q) r h =
      ap (λ n. n % w) (regroup q r) ∙ add-mod_left w (q * w + r) ∙ remainder_of q r h
    where
      regroup : (a b : ℕ) → suc a * w + b ≡ w + (a * w + b)
      regroup a b = omega arith

  pub remainders_of :
      (q r : ℕ) → i < w → r ≤ w → remainders (q * w + r) ≡ q + (if ltb i r then 1 else 0)
  remainders_of zero zero hi hr =
      let e : 0 * w + 0 ≡ 0 = omega arith in
      let none_yet : 0 ≡ 0 + (if ltb i 0 then 1 else 0) = ground arith in ap remainders e ∙ none_yet
  remainders_of (suc q) zero hi hr =
      ap remainders (regroup q) ∙ remainders_of q w hi (omega arith) ∙ ground arith
    where
      regroup : (a : ℕ) → suc a * w + 0 ≡ a * w + w
      regroup a = omega arith
  remainders_of q (suc r) hi hr =
      ap remainders (regroup (q * w))
      ∙ count_if-range (λ n. n % w == i) (q * w + r)
      ∙ ground (arith, remainders_of q r hi (omega arith), remainder_of q r (omega arith))
    where
      regroup : (a : ℕ) → a + suc r ≡ suc (a + r)
      regroup a = omega arith

  pub remainders-share : (k : ℕ) → i < w → remainders k ≡ k / w + (if ltb i (k % w) then 1 else 0)
  remainders-share k hi =
      ap remainders (sym (div-add-mod k w) ∙ swap (k / w) (k % w))
      ∙ remainders_of (k / w) (k % w) hi (ground (arith, mod-lt k {m = w} (omega arith)))
    where
      swap : (a b : ℕ) → w * a + b ≡ a * w + b
      swap a b = omega arith

turn-port : (w n port : ℕ) → turn w n ≡ ok port → port ≡ worker_base_port + n % w
turn-port zero n port e = absurd (cc)
turn-port (suc w) n port e = cc

pair-port :
    {p port : ℕ} {q path : Str}
    → ◌≡◌ {A = Result (ℕ × Str)} (ok (p, q)) (ok (port, path))
    → p ≡ port
pair-port e = cc

target-port :
    (policy : Str) (args : Args) (gateway_port n port : ℕ) (path : Str)
    → is_roundrobin policy ≡ true
    → target policy args gateway_port n ≡ ok (port, path)
    → port ≡ worker_base_port + n % args.workers
unfolding target
target-port policy args gateway_port n port path h e =
    let (p, ep, rest) = >>=-eq-ok (turn args.workers n) _ (rw h at e) in
    sym (pair-port rest) ∙ turn-port args.workers n p ep

Sent-port : {s s' : Sent} → ok s ≡ ok s' → s.port ≡ s'.port
Sent-port e = ground arith

one-port :
    (c : Codec) (policy : Str) (args : Args) (prompts : List Str) (gateway_port : ℕ)
    (serve : Servers) (i n : ℕ) (item : ℕ × Str) (s : Sent)
    → is_roundrobin policy ≡ true
    → one c policy args prompts gateway_port serve i n item ≡ ok s
    → s.port ≡ worker_base_port + n % args.workers
unfolding one
one-port c policy args prompts gateway_port serve i n (pid, question) s h e =
    let (prompt, _, e₁) = >>=-eq-ok (or_raise (get_elem? prompts pid) index_error) _ e in
    let ((port, path), ep, e₂) = >>=-eq-ok (target policy args gateway_port n) _ e₁ in
    let (row, _, e₃) =
      >>=-eq-ok (row_of c port (serve i port path (body args prompt question))) _ e₂ in
    sym (Sent-port {s = record { port = port; path = path; row = row }} e₃)
    ∙ target-port policy args gateway_port n port path h ep

abbrev pub ports : List Sent → List ℕ
ports = map (λ (s : Sent). s.port)

run_from-ports :
    (c : Codec) (policy : Str) (args : Args) (prompts : List Str) (gateway_port : ℕ)
    (serve : Servers) (i n : ℕ) (reqs : List (ℕ × Str)) (rows : List Sent)
    → is_roundrobin policy ≡ true
    → run_from c policy args prompts gateway_port serve i n reqs ≡ ok rows
    → ports rows ≡ map (λ m. worker_base_port + m % args.workers) (range_from (length reqs) n)
unfolding run_from
run_from-ports c policy args prompts gateway_port serve i n [] rows h e =
    ap ports (sym (ok_injective e))
run_from-ports c policy args prompts gateway_port serve i n (item ∷ reqs) rows h e =
    let (s, es, e₁) = >>=-eq-ok (one c policy args prompts gateway_port serve i n item) _ e in
    let (rest, er, e₂) =
      >>=-eq-ok (run_from c policy args prompts gateway_port serve (suc i) _ reqs) _ e₁ in
    let er' = rw h at er in
    ap ports (sym (ok_injective e₂))
    ∙ ap₂ (λ p l. p ∷ l) (one-port c policy args prompts gateway_port serve i n item s h es)
        (run_from-ports c policy args prompts gateway_port serve (suc i) (suc n) reqs rest h er')

count_if-ports :
    (w base i : ℕ) (l : List ℕ)
    → count_if (λ p. p == base + i) (map (λ m. base + m % w) l) ≡ count_if (λ m. m % w == i) l
count_if-ports w base i [] = refl
count_if-ports w base i (m ∷ l) = ground (arith, count_if-ports w base i l)

count_if-map :
    (p : ℕ → Bool) (rows : List Sent)
    → count_if (λ (s : Sent). p s.port) rows ≡ count_if p (ports rows)
count_if-map p [] = refl
count_if-map p (s ∷ rows) = ap (λ n. (if p s.port then 1 else 0) + n) (count_if-map p rows)

pub run_policy-run_from :
    (c : Codec) (policy : Str) (args : Args) (prompts : List Str) (gateway_port : ℕ)
    (serve : Servers) (reqs : List (ℕ × Str)) (rows : List Sent)
    → run_policy c policy args prompts gateway_port serve reqs ≡ ok rows
    → run_from c policy args prompts gateway_port serve 0 0 reqs ≡ ok rows
unfolding run_policy
run_policy-run_from c policy args prompts gateway_port serve reqs rows h =
    elim (Bool-cases (args.concurrency == 0)) [
      | inl e ↦ absurd (raise-ne-ok (rw e at h))
      | inr e ↦ rw e at h
    ]
  where
    raise-ne-ok : {A : Type 0} {x : Exc} {a : A} → ◌≡◌ {A = Result A} (raise x) (ok a) → ⊥
    raise-ne-ok e = absurd (cc)

pub run_policy-ports :
    (c : Codec) (args : Args) (prompts : List Str) (gateway_port : ℕ) (serve : Servers)
    (reqs : List (ℕ × Str)) (rows : List Sent)
    → run_policy c (lit "roundrobin") args prompts gateway_port serve reqs ≡ ok rows
    → ports rows ≡ map (λ m. worker_base_port + m % args.workers) (range_from (length reqs) 0)
run_policy-ports c args prompts gateway_port serve reqs rows h =
    run_from-ports c (lit "roundrobin") args prompts gateway_port serve 0 0 reqs rows refl
      (run_policy-run_from c (lit "roundrobin") args prompts gateway_port serve reqs rows h)

-- Whenever a round-robin run ends with rows, worker i of w has got one request of every w, that is,
-- of k requests k / w, and one more if i is less than the remainder of k.
pub run_policy-share :
    (c : Codec) (args : Args) (prompts : List Str) (gateway_port : ℕ) (serve : Servers)
    (reqs : List (ℕ × Str)) (rows : List Sent) (i : ℕ)
    → run_policy c (lit "roundrobin") args prompts gateway_port serve reqs ≡ ok rows
    → i < args.workers
    → count_if (λ (s : Sent). s.port == worker_base_port + i) rows
      ≡ length reqs / args.workers + (if ltb i (length reqs % args.workers) then 1 else 0)
run_policy-share c args prompts gateway_port serve reqs rows i h lt =
    count_if-map (λ p. p == worker_base_port + i) rows
    ∙ ap (count_if (λ p. p == worker_base_port + i))
        (run_policy-ports c args prompts gateway_port serve reqs rows h)
    ∙ count_if-ports args.workers worker_base_port i (range_from (length reqs) 0)
    ∙ remainders-share args.workers i (length reqs) lt
