-- ===== src/Python/Errors.antt =====
-- Exceptions as values, and the two ways in which the scripts catch them.
use radixgates.Base.{◌≡◌, refl, Bool, true, false, Option, none, some, if◌then◌else◌}

-- `interrupt` is KeyboardInterrupt and `exit` is SystemExit: no `except Exception` catches them.
-- `json_error` is json.JSONDecodeError, `missing_file` FileNotFoundError, `protocol_error`
-- http.client.HTTPException and `timeout_expired` subprocess.TimeoutExpired; `os_error` stands for
-- OSError with its other subclasses, to which a failed connection and a socket's timeout belong.
pub data Exc : Type 0 where
  os_error http_error unicode_error json_error value_error : Exc
  key_error index_error type_error attribute_error : Exc
  missing_file runtime_error zero_division_error protocol_error timeout_expired : Exc
  stop_iteration statistics_error : Exc
  interrupt exit : Exc

pub data Result {κ} (A : Type κ) : Type κ where
  raise : Exc → Result A
  ok : A → Result A

-- Whether `except Exception` catches it.
abbrev pub is_exception : Exc → Bool
is_exception interrupt = false
is_exception exit = false
is_exception _ = true

-- Whether `except OSError` catches it; the HTTPError of requests is an OSError too.
abbrev pub is_os_error : Exc → Bool
is_os_error os_error = true
is_os_error missing_file = true
is_os_error http_error = true
is_os_error _ = false

-- `try: m  except OSError: h`
abbrev pub except_os {κ} : {A : Type κ} → Result A → Result A → Result A
except_os (ok a) h = ok a
except_os (raise x) h = if is_os_error x then h else raise x

-- `try: m  except Exception: h`
abbrev pub except {κ} : {A : Type κ} → Result A → (Exc → Result A) → Result A
except (ok a) h = ok a
except (raise x) h = if is_exception x then h x else raise x

abbrev pub or_raise {κ} : {A : Type κ} → Option A → Exc → Result A
or_raise none x = raise x
or_raise (some a) x = ok a

infixl 5 ◌>>=◌
abbrev pub ◌>>=◌ {κ μ} : {A : Type κ} {B : Type μ} → Result A → (A → Result B) → Result B
raise x >>= k = raise x
ok a >>= k = k a

infixl 5 ◌>>◌
abbrev pub ◌>>◌ {κ μ} : {A : Type κ} {B : Type μ} → Result A → Result B → Result B
m >> next = m >>= λ _. next

-- Inversion of a chain that ends without an exception.
pub >>=-eq-ok {κ μ} :
    {A : Type κ} {B : Type μ} (m : Result A) (k : A → Result B) {b : B}
    → (m >>= k) ≡ ok b
    → (a : A) × (m ≡ ok a) × (k a ≡ ok b)
>>=-eq-ok (raise x) k h = absurd (cc)
>>=-eq-ok (ok a) k h = (a, refl, h)

pub ok_injective {κ} : {A : Type κ} {a b : A} → ok a ≡ ok b → a ≡ b
ok_injective e = cc
