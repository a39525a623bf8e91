-- ===== src/Script/Tee.antt =====
-- `_Tee` of the examples, which stands for sys.stdout: the console and the log file.
pub mod Laws
use radixgates.Base.{ℕ, zero, suc, List, [], ◌∷◌, ◌++◌, Str}
use radixgates.Python.{Exc, os_error, Result, ok, raise}

-- A file that text is written to. After `room` more writes it is broken: they raise an OSError and
-- write nothing.
pub record Sink : Type 0 where
  pub text : Str
  pub room : ℕ

-- `t.write(s)`
abbrev pub write_at : ℕ → Str → Str → Result (Unit {0}) × Sink
write_at zero text s = (raise os_error, record { text = text; room = zero })
write_at (suc n) text s = (ok tt, record { text = text ++ s; room = n })

abbrev pub write_sink : Sink → Str → Result (Unit {0}) × Sink
write_sink t s = write_at t.room t.text s

-- goes on with the other targets, if this one has not raised
abbrev pub then_write :
    Result (Unit {0}) × Sink
    → List Sink
    → Result (Unit {0}) × List Sink
    → Result (Unit {0}) × List Sink
then_write (raise e, t) others rest = (raise e, t ∷ others)
then_write (ok u, t) others (r, written) = (r, t ∷ written)

-- `_Tee.write`
unfoldable pub write : List Sink → Str → Result (Unit {0}) × List Sink
write [] s = (ok tt, [])
write (t ∷ targets) s = then_write (write_sink t s) targets (write targets s)

-- What some writes leave, whether they raised or not: the parts catch exceptions and go on.
unfoldable pub write_all : List Sink → List Str → List Sink
unfolding write
write_all targets [] = targets
write_all targets (s ∷ texts) = write_all (write targets s).1 texts
