-- ===== src/Script.antt =====
-- What the `main` functions of the examples are made of: printing, calls of the parts, and
-- `except KeyboardInterrupt`.
pub mod Tee
pub mod LogName
pub mod Laws
use radixgates.Base.{List, [], ◌∷◌, ◌++◌, Str, map}
use radixgates.Python.{Exc, interrupt, Result, ok, raise}

-- the functions that a `main` calls, and `input`
pub data Part : Type 0 where
  hardware gateway nodes parallel memory keywords prompt : Part
  ttft prefixes load chat workload logs : Part

-- A line that `main` prints itself, or a call; what a part prints is its own matter.
pub data Event : Type 0 where
  said : Str → Event
  called : Part → Event

-- what a script does, in order, and how it ends
abbrev pub Script : Type 0 → Type 0
Script A = List Event × Result A

infixl 5 ◌>>=◌
abbrev pub ◌>>=◌ : {A B : Type 0} → Script A → (A → Script B) → Script B
(es, raise e) >>= k = (es, raise e)
(es, ok a) >>= k = (es ++ (k a).0, (k a).1)

infixl 5 ◌>>◌
abbrev pub ◌>>◌ : {A B : Type 0} → Script A → Script B → Script B
m >> next = m >>= λ _. next

abbrev pub say : List Str → Script (Unit {0})
say lines = (map said lines, ok tt)

abbrev pub call : {A : Type 0} → Part → Result A → Script A
call p r = (called p ∷ [], r)

-- `try: m  except KeyboardInterrupt: pass`
abbrev pub pass_interrupt : Script (Unit {0}) → Script (Unit {0})
pass_interrupt (es, raise interrupt) = (es, ok tt)
pass_interrupt (es, r) = (es, r)
