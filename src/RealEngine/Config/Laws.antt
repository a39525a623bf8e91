-- ===== src/RealEngine/Config/Laws.antt =====
-- Which servers the gateway is configured with, and which slots are erased.
use native.Mathlib.Nat.{mod-eq_of_lt, mod-lt}
use radixgates.Base.{
  false-ne-true, ℕ, zero, suc, List, [], ◌∷◌, some, get_elem?, get_elem?-range_from, length, sym,
  ◌∙◌, Str, ◌+◌, ◌%◌, ◌<◌, ◌≤◌, ◌≡◌, ap, ◌↔◌, refl, ◌==◌, ◌||◌, map, range_from, Option, none, lit,
  Bool, true, false, Bool-cases, inl, inr, arith,
}
use radixgates.Base.Int.{pos}
use radixgates.Python.{Result, ok, >>=-eq-ok}
use radixgates.Python.Json.{Json, int, arr, Items, nil, cons, Fields, by_key}
use radixgates.RealEngine.{worker_base_port, Servers, Sent, run_policy}
use radixgates.RealEngine.Share.{ports, run_policy-ports}
use radixgates.RealEngine.Report.{run_args}
use radixgates.Python.Json.{Codec}
use radixgates.RealEngine.Config.{
  Options, instance_of, items, config, gateway_port, Post, each, erase_path, erase_caches,
}

abbrev is_port : ℕ → Result Json → Bool
is_port port (ok (int (pos p))) = p == port
is_port port _ = false

unfoldable has_port : ℕ → Items → Bool
unfolding by_key
has_port port nil = false
has_port port (cons v vs) = is_port port (by_key v (lit "port")) || has_port port vs

-- whether a list of instances has the port
abbrev listed : ℕ → Result Json → Bool
listed port (ok (arr vs)) = has_port port vs
listed port _ = false

-- Whether the gateway that reads the configuration has a node at the port.
unfoldable pub serves : ℕ → Json → Bool
unfolding by_key has_port
serves port cfg = listed port (by_key cfg (lit "sglang_instances"))

serves-config :
    (port : ℕ) (args : Options) (routing : Option Fields)
    → serves port (config args routing)
      ≡ has_port port (items (map (instance_of args.slots) (range_from args.workers 0)))
unfolding config serves has_port
serves-config port args routing = refl

has_port-range :
    (port slots n k : ℕ)
    → (has_port port (items (map (instance_of slots) (range_from n k))) ≡ true)
      ↔ ((i : ℕ) × (k ≤ i) × (i < n + k) × (worker_base_port + i ≡ port))
unfolding has_port
has_port-range port slots zero k =
    (λ e. absurd (false-ne-true e), λ (i, p, q, e). absurd (omega (arith, p, q)))
has_port-range port slots (suc n) k = (
  λ e. elim (Bool-cases ((worker_base_port + k) == port)) [
    | inl here ↦ (k, omega arith, omega arith, ground arith)
    | inr elsewhere ↦
        let (i, p, q, r) = (has_port-range port slots n (suc k)).0 (rw elsewhere at e) in
        (i, omega (arith, p), omega (arith, q), r)
  ],
  λ (i, p, q, r). elim (Bool-cases ((worker_base_port + k) == port)) [
    | inl here ↦ rw here refl
    | inr elsewhere ↦ rw elsewhere (
        (has_port-range port slots n (suc k)).1
          (i, ground (arith, p, r, elsewhere), omega (arith, q), r))
  ],
)

module _ (act : ℕ → Result (Unit {0})) where
  each-all :
      (n k : ℕ) → each (range_from n k) act ≡ ok tt → (i : ℕ) → k ≤ i → i < n + k → act i ≡ ok tt
  each-all zero k e i p q = absurd (omega (arith, p, q))
  each-all (suc n) k e i p q =
      let (t, first, rest) = >>=-eq-ok (act k) (λ _. each (range_from n (suc k)) act) e in
      elim (Bool-cases (i == k)) [
        | inl here ↦ (let j : i ≡ k = ground (arith, here) in rw j first)
        | inr elsewhere ↦
            each-all n (suc k) rest i (ground (arith, p, elsewhere)) (omega (arith, q))
      ]

  all-each :
      (n k : ℕ) → ((i : ℕ) → k ≤ i → i < n + k → act i ≡ ok tt) → each (range_from n k) act ≡ ok tt
  all-each zero k h = refl
  all-each (suc n) k h =
      rw (h k (omega arith) (omega arith))
        (all-each n (suc k) (λ i p q. h i (omega (arith, p)) (omega (arith, q))))

elem-of_map :
    {A B : Type 0} (f : A → B) (l : List A) (i : ℕ) (y : B)
    → get_elem? (map f l) i ≡ some y
    → (x : A) × (get_elem? l i ≡ some x) × (f x ≡ y)
elem-of_map f [] i y e = absurd (cc)
elem-of_map f (x ∷ l) zero y e = (x, refl, cc)
elem-of_map f (x ∷ l) (suc i) y e = elem-of_map f l i y e

map-elem :
    {A B : Type 0} (f : A → B) (l : List A) (i : ℕ) (x : A)
    → get_elem? l i ≡ some x
    → get_elem? (map f l) i ≡ some (f x)
map-elem f [] i x e = absurd (cc)
map-elem f (y ∷ l) zero x e = cc
map-elem f (y ∷ l) (suc i) x e = map-elem f l i x e

-- The gateway and the round-robin client use the same servers: when a round-robin run with at least as
-- many requests as there are workers, and at least one worker, ends with rows, a port is that of a
-- node in the gateway's configuration, for every policy, exactly if the run has sent a request to
-- it.
pub run_policy-config :
    (c : Codec) (args : Options) (max_tokens : ℕ) (prompts : List Str) (serve : Servers)
    (reqs : List (ℕ × Str)) (rows : List Sent) (port : ℕ) (routing : Option Fields)
    → run_policy c (lit "roundrobin") (run_args args max_tokens) prompts gateway_port serve reqs
      ≡ ok rows
    → 0 < args.workers
    → args.workers ≤ length reqs
    → (serves port (config args routing) ≡ true)
      ↔ ((i : ℕ) × (s : Sent) × (get_elem? rows i ≡ some s) × (s.port ≡ port))
run_policy-config c args max_tokens prompts serve reqs rows port routing run w enough =
    let sent =
      run_policy-ports c (run_args args max_tokens) prompts gateway_port serve reqs rows run in
    let at : ℕ → ℕ = λ m. worker_base_port + m % args.workers in
    let (listed_at, node) = has_port-range port args.slots args.workers 0 in
    rw (serves-config port args routing) (
      λ e.
          let (i, p, q, r) = listed_at e in
          let own : i % args.workers ≡ i = mod-eq_of_lt (omega (arith, q)) in
          let there : get_elem? (ports rows) i ≡ some (at i) =
            ap (λ l. get_elem? l i) sent
            ∙ get_elem?-range_from at (length reqs) 0 i i (omega (arith, q, enough))
                (omega arith) in
          let (s, es, ep) = elem-of_map (λ (x : Sent). x.port) rows i (at i) there in
          (i, s, es, ep ∙ ap (λ m. worker_base_port + m) own ∙ r),
      λ (i, s, es, ep).
          let there : get_elem? (map at (range_from (length reqs) 0)) i ≡ some s.port =
            ap (λ l. get_elem? l i) (sym sent) ∙ map-elem (λ (x : Sent). x.port) rows i s es in
          let (m, em, e) = elem-of_map at (range_from (length reqs) 0) i s.port there in
          let below : m % args.workers < args.workers = mod-lt m {m = args.workers} w in
          node (m % args.workers, omega arith, omega (arith, below), e ∙ ep),
    )

-- `erase_caches` returns exactly if the request that erases a slot has gone through for every slot
-- of every worker.
pub erase_caches_iff :
    (args : Options) (post : Post)
    → (erase_caches args post ≡ ok tt) ↔ (
        (i slot : ℕ)
        → i < args.workers
        → slot < args.slots
        → post (worker_base_port + i) (erase_path slot) none ≡ ok tt)
unfolding erase_caches
erase_caches_iff args post =
    let slot_of : ℕ → ℕ → Result (Unit {0}) =
      λ i slot. post (worker_base_port + i) (erase_path slot) none in
    let worker : ℕ → Result (Unit {0}) = λ i. each (range_from args.slots 0) (slot_of i) in
    (
      λ e i slot p q.
          each-all (slot_of i) args.slots 0
            (each-all worker args.workers 0 e i (omega arith) (omega (arith, p))) slot (omega arith)
            (omega (arith, q)),
      λ h. all-each worker args.workers 0 λ i _ p.
          all-each (slot_of i) args.slots 0
            λ slot _ q. h i slot (omega (arith, p)) (omega (arith, q)),
    )
