-- ===== src/Servers/Tp/Laws.antt =====
-- Which of its three sources the check of tensor parallelism goes by.
use radixgates.Base.{
  ℕ, List, [], ◌∷◌, Str, lit, Option, none, some, Bool, true, false, ◌≡◌, refl, ◌==◌, is_empty,
  if◌then◌else◌, Bool-cases, inl, inr, ◌↔◌, sym, false-ne-true, arith,
}
use radixgates.Base.Int.{ℤ, pos, ◌<ℤ◌, ltb_ℤ}
use radixgates.Python.{Result, ok, raise, ◌>>=◌, or_raise, except, is_exception, json_error}
use radixgates.Python.Json.{Json, null, bool, int, float, str, arr, obj, Codec, get}
use radixgates.Python.Catch.{Catchable, >>=-Catchable, or_raise-Catchable, get-Catchable}
use radixgates.Throughput.{Reply, lost, reply}
use radixgates.Throughput.Laws.{IsCalm}
use radixgates.Servers.{Files, is_none, json_of, or_null}
use radixgates.Servers.Search.{tp_pattern}
use radixgates.Servers.Tp.{
  args_size, info_size, size_of_args, size_of_info, size_in, found_or, size_of_logs, conclude,
  is_parallel, log_candidates, check_tp_active,
}

-- what a source gives: None if it gives nothing or an exception ends it
abbrev pub given : Result Json → Json
given (ok v) = v
given (raise e) = null

-- a size that a search finds, or else another value
abbrev pub number_or : Option ℕ → Json → Json
number_or none rest = rest
number_or (some n) rest = int (pos n)

abbrev pub size_or : Option (Result Str) → Json → Json
size_or none rest = rest
size_or (some (raise e)) rest = rest
size_or (some (ok content)) rest = number_or (tp_pattern content) rest

-- the size in the first log file that can be read and has one
unfoldable pub logged : Files → List Str → Json
logged files [] = null
logged files (p ∷ ps) = size_or (if is_empty p then none else files p) (logged files ps)

-- Reading a log file raises nothing but an `Exception`.
abbrev pub CalmFile : Option (Result Str) → Type 0
CalmFile none = Unit
CalmFile (some (ok content)) = Unit
CalmFile (some (raise e)) = is_exception e ≡ true

except-given : (m : Result Json) → Catchable m → except m (λ _. ok null) ≡ ok (given m)
except-given (ok v) h = refl
except-given (raise e) h = rw h

json_of-Catchable : (c : Codec) (r : Reply) → IsCalm r → Catchable (json_of c r)
unfolding json_of
json_of-Catchable c (lost e) h = h
json_of-Catchable c (reply status body) h = elim (Bool-cases (status == 200)) [
  | inl e ↦ rw e (
      >>=-Catchable (or_raise (c.loads body) json_error) (λ d. ok (some d))
        (or_raise-Catchable (c.loads body) json_error refl) λ d. tt)
  | inr e ↦ rw e tt
]

args_size-Catchable : (d : Option Json) → Catchable (args_size d)
args_size-Catchable none = tt
args_size-Catchable (some args) =
    >>=-Catchable (get args (lit "tp_size") null) (get args (lit "tensor_parallel_size"))
      (get-Catchable args (lit "tp_size") null)
      λ v. get-Catchable args (lit "tensor_parallel_size") v

info_size-Catchable : (d : Option Json) → Catchable (info_size d)
info_size-Catchable none = tt
info_size-Catchable (some info) =
    >>=-Catchable (get info (lit "tensor_parallel_size") null) (get info (lit "tp_size"))
      (get-Catchable info (lit "tensor_parallel_size") null)
      λ v. get-Catchable info (lit "tp_size") v

found_or-number_or :
    (o : Option ℕ) (rest : Result Json) (v : Json)
    → rest ≡ ok v
    → found_or o rest ≡ ok (number_or o v)
found_or-number_or none rest v e = e
found_or-number_or (some n) rest v e = refl

size_in-size_or :
    (o : Option (Result Str)) (rest : Result Json) (v : Json)
    → CalmFile o
    → rest ≡ ok v
    → (size_in o >>= λ found. found_or found rest) ≡ ok (size_or o v)
size_in-size_or none rest v h e = e
size_in-size_or (some (raise x)) rest v h e = rw h e
size_in-size_or (some (ok content)) rest v h e = found_or-number_or (tp_pattern content) rest v e

size_of_logs-logged :
    (files : Files) (ps : List Str)
    → ((p : Str) → CalmFile (files p))
    → size_of_logs files ps ≡ ok (logged files ps)
unfolding size_of_logs logged
size_of_logs-logged files [] h = refl
size_of_logs-logged files (p ∷ ps) h =
    size_in-size_or (if is_empty p then none else files p) (size_of_logs files ps) (logged files ps)
      (calm (is_empty p)) (size_of_logs-logged files ps h)
  where
    calm : (b : Bool) → CalmFile (if b then none else files p)
    calm true = tt
    calm false = h p

or_null-if : (v w : Json) → (if is_none v then w else v) ≡ or_null v w
or_null-if null w = refl
or_null-if (bool b) w = refl
or_null-if (int n) w = refl
or_null-if (float m e) w = refl
or_null-if (str s) w = refl
or_null-if (arr vs) w = refl
or_null-if (obj fs) w = refl

if_ok : (b : Bool) (v w : Json) → (if b then ok w else ok v) ≡ ok (if b then w else v)
if_ok true v w = refl
if_ok false v w = refl

conclude-or_null :
    (args logs info : Result Json) (a l i : Json)
    → args ≡ ok a
    → logs ≡ ok l
    → info ≡ ok i
    → conclude args logs info ≡ ok (is_parallel (or_null (or_null a l) i), or_null (or_null a l) i)
conclude-or_null args logs info a l i ea el ei =
    rw (ea, el, ei, if_ok (is_none a) a l, or_null-if a l, or_null-if (or_null a l) i)

size_of_args-given :
    (c : Codec) (r : Reply) → IsCalm r → size_of_args c r ≡ ok (given (json_of c r >>= args_size))
unfolding size_of_args
size_of_args-given c r h =
    except-given (json_of c r >>= args_size)
      (>>=-Catchable (json_of c r) args_size (json_of-Catchable c r h) args_size-Catchable)

size_of_info-given :
    (c : Codec) (r : Reply) → IsCalm r → size_of_info c r ≡ ok (given (json_of c r >>= info_size))
unfolding size_of_info
size_of_info-given c r h =
    except-given (json_of c r >>= info_size)
      (>>=-Catchable (json_of c r) info_size (json_of-Catchable c r h) info_size-Catchable)

is_parallel_iff : (v : Json) → (is_parallel v ≡ true) ↔ ((n : ℤ) × (v ≡ int n) × (pos 1 <ℤ n))
is_parallel_iff (int n) = (
  λ e. (n, refl, ground (arith, e)),
  λ (m, e, h). let same : m ≡ n = sym (int_injective e) in above n (rw same at h),
)
  where
    int_injective : {a b : ℤ} → int a ≡ int b → a ≡ b
    int_injective e = cc

    above : (k : ℤ) → pos 1 <ℤ k → ltb_ℤ (pos 1) k ≡ true
    above k h = ground (arith, h)
is_parallel_iff null = (λ e. absurd (false-ne-true e), λ (m, e, h). absurd (cc))
is_parallel_iff (bool b) = (λ e. absurd (false-ne-true e), λ (m, e, h). absurd (cc))
is_parallel_iff (float a b) = (λ e. absurd (false-ne-true e), λ (m, e, h). absurd (cc))
is_parallel_iff (str s) = (λ e. absurd (false-ne-true e), λ (m, e, h). absurd (cc))
is_parallel_iff (arr vs) = (λ e. absurd (false-ne-true e), λ (m, e, h). absurd (cc))
is_parallel_iff (obj fs) = (λ e. absurd (false-ne-true e), λ (m, e, h). absurd (cc))

-- Unless it is interrupted, the check finds the size that the first of its three sources gives
-- which gives any: /get_server_args, then the log files, and then /get_model_info. It confirms
-- tensor parallelism exactly if that size is an int above 1.
pub check_tp_active-sources :
    (c : Codec) (args info : Reply) (files : Files) (sglang_log : Str)
    → IsCalm args
    → IsCalm info
    → ((p : Str) → CalmFile (files p))
    → (confirmed : Bool) × (size : Json) × (size
        ≡ or_null
            (or_null
              (given (json_of c args >>= args_size))
              (logged files (log_candidates sglang_log)))
            (given (json_of c info >>= info_size)))
      × (check_tp_active c args files sglang_log info ≡ ok (confirmed, size))
      × ((confirmed ≡ true) ↔ ((n : ℤ) × (size ≡ int n) × (pos 1 <ℤ n)))
unfolding check_tp_active
check_tp_active-sources c args info files sglang_log ha hi hf = (
  _,
  or_null
      (or_null (given (json_of c args >>= args_size)) (logged files (log_candidates sglang_log)))
      (given (json_of c info >>= info_size)),
  refl,
  conclude-or_null (size_of_args c args) (size_of_logs files (log_candidates sglang_log))
      (size_of_info c info) _ _ _ (size_of_args-given c args ha)
      (size_of_logs-logged files (log_candidates sglang_log) hf) (size_of_info-given c info hi),
  is_parallel_iff _,
)
