-- ===== src/Script/Laws.antt =====
-- How a script ends, apart from what it prints and calls; and which parts it calls.
use radixgates.Base.{List, [], ◌∷◌, ◌≡◌, refl}
use radixgates.Python.{interrupt, Result, ok, raise, ◌>>=◌}
use radixgates.Script
use radixgates.Script.{Event, said, called, Part, Script, call, pass_interrupt}

-- `except KeyboardInterrupt: pass`, of the end alone
abbrev pub calm : Result (Unit {0}) → Result (Unit {0})
calm (raise interrupt) = ok tt
calm r = r

pub pass_interrupt-result :
    {B : Type 0} (m : Script (Unit {0})) (k : Unit {0} → Script B)
    → (Script.◌>>=◌ (pass_interrupt m) k).1 ≡ (calm m.1 >>= λ u. (k u).1)
pass_interrupt-result (es, ok a) k = refl
pass_interrupt-result (es, raise interrupt) k = refl
pass_interrupt-result (es, raise e) k = refl

-- the parts that were called, in order
abbrev pub parts : List Event → List Part
parts [] = []
parts (said s ∷ es) = parts es
parts (called p ∷ es) = p ∷ parts es
