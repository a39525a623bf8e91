-- ===== src/RealEngine/Rows.antt =====
-- Which row each request of a run gets.
use radixgates.Base.{
  ℕ, zero, suc, List, [], ◌∷◌, true, false, ◌≡◌, refl, Str, lit, none, some, ◌==◌, ◌<◌, length,
  get_elem?, get_elem?-All, All, arith, Bool-cases, inl, inr,
}
use radixgates.Base.Int.{ℤ, pos, negsuc, ◌-ℤ◌, ◌*ℤ◌}
use radixgates.Base.Dict.{Dict}
use radixgates.Python.{Exc, ok, is_os_error}
use radixgates.Python.Json.{Json, obj, Fields, end, float, find_field, by_key, get, Codec}
use radixgates.RealEngine.{
  Args, lost, reply, HttpExchange, Servers, Row, failed, served, Sent, target, turn, is_roundrobin,
  body, as_time, node_of, read_completion, read_reply, row_of, one, run_from, run_policy,
  next_counter,
}

-- The object under a key.
abbrev pub Under : Str → Fields → Fields → Type 0
Under k fs gs = find_field k fs ≡ some (obj gs)

-- The time of the prefill in the "timings" of an answer; it is 0 if it is not given.
pub data Prefill (fs : Fields) : ℤ → Type 0 where
  untimed : find_field (lit "timings") fs ≡ none → Prefill fs (pos 0)
  no_prefill :
      {ts : Fields}
      → Under (lit "timings") fs ts
      → find_field (lit "prompt_ms") ts ≡ none
      → Prefill fs (pos 0)
  timed :
      {ts : Fields} {v : Json} {t : ℤ}
      → Under (lit "timings") fs ts
      → find_field (lit "prompt_ms") ts ≡ some v
      → as_time v ≡ ok t
      → Prefill fs t

-- The row that an exchange with a port deserves: a failure with status -1 if it fails with an OSError,
-- a failure with its status if that is not 200, and otherwise, for an answer in the form of
-- llama-server, the numbers of tokens and the time that stand in it.
pub data RowFor (c : Codec) (port : ℕ) (x : HttpExchange) : Row → Type 0 where
  no_reply :
      {e : Exc}
      → x.result ≡ lost e
      → is_os_error e ≡ true
      → RowFor c port x (failed (x.received -ℤ x.sent) (negsuc 0))
  refused :
      {status : ℕ} {headers : Dict Str} {content : Str}
      → x.result ≡ reply status headers content
      → (status == 200) ≡ false
      → RowFor c port x (failed (x.received -ℤ x.sent) (pos status))
  answered :
      {headers : Dict Str} {content : Str} {fs us ds : Fields} {prompt cached : Json} {t : ℤ}
      → x.result ≡ reply 200 headers content
      → c.loads content ≡ some (obj fs)
      → Under (lit "usage") fs us
      → find_field (lit "prompt_tokens") us ≡ some prompt
      → Under (lit "prompt_tokens_details") us ds
      → find_field (lit "cached_tokens") ds ≡ some cached
      → Prefill fs t
      → RowFor c port x (served (x.received -ℤ x.sent) (node_of headers port) prompt cached t)

zero_time : as_time (float (pos 0) (pos 0)) ≡ ok (pos 0)
unfolding as_time ◌*ℤ◌
zero_time = refl

by_key_found :
    (k : Str) (fs : Fields) (v : Json) → find_field k fs ≡ some v → by_key (obj fs) k ≡ ok v
unfolding by_key
by_key_found k fs v e = rw (by_key, e) refl

get_found :
    (k : Str) (fs : Fields) (v d : Json) → find_field k fs ≡ some v → get (obj fs) k d ≡ ok v
unfolding get
get_found k fs v d e = rw (get, e) refl

get_missing : (k : Str) (fs : Fields) (d : Json) → find_field k fs ≡ none → get (obj fs) k d ≡ ok d
unfolding get
get_missing k fs d e = rw (get, e) refl

read_completion_lem :
    (c : Codec) (port : ℕ) (lat : ℤ) (headers : Dict Str) (content : Str) (fs us ds : Fields)
    (prompt cached : Json) (t : ℤ)
    → c.loads content ≡ some (obj fs)
    → Under (lit "usage") fs us
    → find_field (lit "prompt_tokens") us ≡ some prompt
    → Under (lit "prompt_tokens_details") us ds
    → find_field (lit "cached_tokens") ds ≡ some cached
    → Prefill fs t
    → read_completion c port lat headers content
      ≡ ok (served lat (node_of headers port) prompt cached t)
unfolding read_completion
read_completion_lem c port lat headers content fs us ds prompt cached t l u p d h time =
    let u' = by_key_found (lit "usage") fs (obj us) u in
    let p' = by_key_found (lit "prompt_tokens") us prompt p in
    let d' = by_key_found (lit "prompt_tokens_details") us (obj ds) d in
    let h' = by_key_found (lit "cached_tokens") ds cached h in
    let (tm, v, e₁, e₂, e₃) = prefill_found t time in rw (l, e₁, u', p', d', h', e₂, e₃) refl
  where
    prefill_found :
        (t' : ℤ)
        → Prefill fs t'
        → (tm : Json) × (v : Json) × (get (obj fs) (lit "timings") (obj end) ≡ ok tm)
          × (get tm (lit "prompt_ms") (float (pos 0) (pos 0)) ≡ ok v)
          × (as_time v ≡ ok t')
    prefill_found _ (untimed n) = (
      obj end,
      float (pos 0) (pos 0),
      get_missing (lit "timings") fs (obj end) n,
      get_missing (lit "prompt_ms") end (float (pos 0) (pos 0)) refl,
      zero_time,
    )
    prefill_found _ (no_prefill {ts} n m) = (
      obj ts,
      float (pos 0) (pos 0),
      get_found (lit "timings") fs (obj ts) (obj end) n,
      get_missing (lit "prompt_ms") ts (float (pos 0) (pos 0)) m,
      zero_time,
    )
    prefill_found _ (timed {ts} {v} n m e) = (
      obj ts,
      v,
      get_found (lit "timings") fs (obj ts) (obj end) n,
      get_found (lit "prompt_ms") ts v (float (pos 0) (pos 0)) m,
      e,
    )

RowFor-row_of :
    (c : Codec) (port : ℕ) (x : HttpExchange) (r : Row) → RowFor c port x r → row_of c port x ≡ ok r
unfolding row_of read_reply
RowFor-row_of c port x r (no_reply e o) = rw (e, o) refl
RowFor-row_of c port x r (refused {status} e o) = rw (e, o) refl
RowFor-row_of c port x r
      (answered {headers} {content} {fs} {us} {ds} {prompt} {cached} {t} e l u p d h time) =
    rw
      (
        e,
        read_completion_lem c port (x.received -ℤ x.sent) headers content fs us ds prompt cached t l
            u p d h time,
      )
      refl

target-total :
    (policy : Str) (args : Args) (gateway_port n : ℕ)
    → 0 < args.workers
    → (a : ℕ × Str) × (target policy args gateway_port n ≡ ok a)
unfolding target
target-total policy args gateway_port n h = elim (Bool-cases (is_roundrobin policy)) [
  | inl e ↦
      let (p, ep) = turn-total args.workers h in ((p, lit "/v1/chat/completions"), rw (e, ep) refl)
  | inr e ↦ ((gateway_port, lit "/v1/chat"), rw e refl)
]
  where
    turn-total : (w : ℕ) → 0 < w → (p : ℕ) × (turn w n ≡ ok p)
    turn-total zero h = absurd (omega arith)
    turn-total (suc w) h = (_, refl)

-- The rows of the requests from the i-th on: each is sent what `body` makes of it, and gets the row
-- that the exchange deserves.
abbrev pub Rows : Codec → Args → List Str → Servers → ℕ → List (ℕ × Str) → List Sent → Type 0
Rows c args prompts serve i [] [] = Unit
Rows c args prompts serve i ((pid, question) ∷ reqs) (s ∷ rows) =
    ((prompt : Str) × (get_elem? prompts pid ≡ some prompt)
      × RowFor c s.port (serve i s.port s.path (body args prompt question)) s.row)
    × Rows c args prompts serve (suc i) reqs rows
Rows c args prompts serve i _ _ = ⊥

module _ (c : Codec) (policy : Str) (args : Args) (prompts : List Str) (gateway_port : ℕ)
    (serve : Servers) where
  one-total :
      (i n pid : ℕ) (question : Str)
      → ((j port : ℕ) (path : Str) (b : Json) → (r : Row) × RowFor c port (serve j port path b) r)
      → 0 < args.workers
      → pid < length prompts
      → (s : Sent) × (one c policy args prompts gateway_port serve i n (pid, question) ≡ ok s)
        × (prompt : Str) × (get_elem? prompts pid ≡ some prompt)
        × RowFor c s.port (serve i s.port s.path (body args prompt question)) s.row
  unfolding one
  one-total i n pid question rows w h =
      let (prompt, ep, _) = get_elem?-All (λ _. Unit {0}) prompts pid (everything prompts) h in
      let ((port, path), et) = target-total policy args gateway_port n w in
      let (row, fits) = rows i port path (body args prompt question) in
      let er = RowFor-row_of c port (serve i port path (body args prompt question)) row fits in
      (record { port = port; path = path; row = row }, rw (ep, et, er) refl, prompt, ep, fits)
    where
      everything : (l : List Str) → All (λ _. Unit {0}) l
      everything [] = tt
      everything (s ∷ l) = (tt, everything l)

  run_from-total :
      (i n : ℕ) (reqs : List (ℕ × Str))
      → ((j port : ℕ) (path : Str) (b : Json) → (r : Row) × RowFor c port (serve j port path b) r)
      → 0 < args.workers
      → All (λ (item : ℕ × Str). item.0 < length prompts) reqs
      → (rows : List Sent) × (run_from c policy args prompts gateway_port serve i n reqs ≡ ok rows)
        × Rows c args prompts serve i reqs rows
  unfolding run_from
  run_from-total i n [] rows w h = ([], refl, tt)
  run_from-total i n ((pid, question) ∷ reqs) rows w h =
      let (s, es, prompt, ep, fits) = one-total i n pid question rows w h.0 in
      let (rest, er, more) = run_from-total (suc i) (next_counter policy n) reqs rows w h.1 in
      (s ∷ rest, rw (es, er) refl, ((prompt, ep, fits), more))

  -- If there are workers and threads, each request names one of the prompts, and each exchange either
  -- fails with an OSError, has another status than 200, or brings an answer in the form of
  -- llama-server, then the run ends, whatever the policy, with a row for each request in its order:
  -- a failure with status -1, a failure with the status, or the numbers of tokens and the time of
  -- the prefill that stand in the answer to that request.
  pub run_policy_total :
      (reqs : List (ℕ × Str))
      → ((j port : ℕ) (path : Str) (b : Json) → (r : Row) × RowFor c port (serve j port path b) r)
      → 0 < args.workers
      → 0 < args.concurrency
      → All (λ (item : ℕ × Str). item.0 < length prompts) reqs
      → (rows : List Sent) × (run_policy c policy args prompts gateway_port serve reqs ≡ ok rows)
        × Rows c args prompts serve 0 reqs rows
  unfolding run_policy
  run_policy_total reqs rows w t h =
      let none_zero : (args.concurrency == 0) ≡ false = ground (arith, t) in
      rw none_zero (run_from-total 0 0 reqs rows w h)
