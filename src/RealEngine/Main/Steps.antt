-- ===== src/RealEngine/Main/Steps.antt =====
-- One run of `main` beside the same run of the experiment.
use radixgates.Base.{ℕ, ◌≡◌, refl, sym, ◌∙◌, ap, Bool, true, false, Str}
use radixgates.Python.{ok_injective, Result, ok, raise}
use radixgates.RealEngine.Fleet.{
  World, Host, Act, next_act, ◌>>=◌, ◌>>◌, host, start_gateway, stop, run_one,
}
use radixgates.Base.Dict.{has_key}
use radixgates.RealEngine.Report.Keys.{has_key-append_result}
use radixgates.RealEngine.Report.{append_to, Measured, Results, append_result}
use radixgates.RealEngine.Main.{run_measured}

abbrev pub done : {A : Type 0} → Result A → Result (Unit {0})
done (ok a) = ok tt
done (raise e) = raise e

-- without the value
abbrev pub forget : {A : Type 0} → Result A × World → Result (Unit {0}) × World
forget (r, w) = (done r, w)

forget-next :
    {A : Type 0} (t : Result (Unit {0}) × World) (a : A)
    → forget (next_act t (λ _. host (ok a))) ≡ t
forget-next (ok u, w) a = refl
forget-next (raise e, w) a = refl

after_start :
    (h : Host) (r : Result Measured) (n : ℕ) (add : Measured → Result Results)
    (kept : Measured → Results) (g : Result ℕ × World)
    → h.measures n ≡ done r
    → ((s : Measured) → add s ≡ ok (kept s))
    → forget (next_act g (λ gw. host r >>= (λ s. host (add s) >>= λ d. stop h gw >> host (ok d))))
      ≡ next_act g (λ gw. host (h.measures n) >> stop h gw)
after_start h r n add kept (raise x, w) e f = refl
after_start h (raise x) n add kept (ok gw, w) e f = rw e refl
after_start h (ok s) n add kept (ok gw, w) e f = rw (e, f s) (forget-next (stop h gw w) (kept s))

append_to-ok :
    (p : Str) (s : Measured) (d : Results)
    → has_key p d ≡ true
    → append_to p s d ≡ ok (append_result p s d)
unfolding append_to
append_to-ok p s d e = rw e refl

pub run_measured-run_one :
    (h : Host) (r : Result Measured) (policy : Str) (d : Results) (gateway : Bool) (n : ℕ)
    (w : World)
    → has_key policy d ≡ true
    → h.measures n ≡ done r
    → forget (run_measured h r policy d gateway w) ≡ run_one h gateway n w
unfolding run_measured run_one
run_measured-run_one h (ok s) policy d false n w p e = rw (e, append_to-ok policy s d p) refl
run_measured-run_one h (raise x) policy d false n w p e = rw e refl
run_measured-run_one h r policy d true n w p e =
    after_start h r n (λ s. append_to policy s d) (λ s. append_result policy s d)
      (start_gateway h w) e (λ s. append_to-ok policy s d p)

-- Inversion of a step that returns.
next_act-ok :
    {A B : Type 0} (x : Result A × World) (k : A → Act B) (b : B)
    → (next_act x k).0 ≡ ok b
    → (a : A) × (w : World) × (x ≡ (ok a, w)) × ((k a w).0 ≡ ok b)
next_act-ok (ok a, w) k b e = (a, w, refl, e)
next_act-ok (raise x, w) k b e = absurd (cc)

abbrev pub SameKeys : Results → Results → Type 0
SameKeys d d' = (q : Str) → has_key q d' ≡ has_key q d

append_to-SameKeys :
    (p : Str) (s : Measured) (d d' : Results)
    → has_key p d ≡ true
    → append_to p s d ≡ ok d'
    → SameKeys d d'
append_to-SameKeys p s d d' h e q =
    let same : append_result p s d ≡ d' = ok_injective (sym (append_to-ok p s d h) ∙ e) in
    rw (sym same) (has_key-append_result p q s d)

pub run_measured-SameKeys :
    (h : Host) (r : Result Measured) (policy : Str) (d : Results) (gateway : Bool) (w : World)
    (d' : Results)
    → has_key policy d ≡ true
    → (run_measured h r policy d gateway w).0 ≡ ok d'
    → SameKeys d d'
unfolding run_measured
run_measured-SameKeys h r policy d false w d' p e =
    let (s, w₁, e₁, e₂) = next_act-ok (host r w) (λ s. host (append_to policy s d)) d' e in
    append_to-SameKeys policy s d d' p e₂
run_measured-SameKeys h r policy d true w d' p e =
    let (gw, w₁, e₁, e₂) = next_act-ok (start_gateway h w) _ d' e in
    let (s, w₂, e₃, e₄) = next_act-ok (host r w₁) _ d' e₂ in
    let (d₁, w₃, e₅, e₆) = next_act-ok (host (append_to policy s d) w₂) _ d' e₄ in
    let (u, w₄, e₇, e₈) = next_act-ok (stop h gw w₃) _ d' e₆ in
    let added : append_to policy s d ≡ ok d' = ap (λ (x : Result Results × World). x.0) e₅ ∙ e₈ in
    append_to-SameKeys policy s d d' p added
