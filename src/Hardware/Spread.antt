-- ===== src/Hardware/Spread.antt =====
-- The ends of `check_gpu_memory` in examples/ep_demo.py and examples/dp_demo.py, which compare the
-- shares of memory in use.
pub mod Laws
use radixgates.Base.{
  ℕ, List, [], ◌∷◌, Bool, true, false, ◌*◌, leb, map, all, length, if◌then◌else◌, Option, none,
  some,
}
use radixgates.Base.Int.{ℤ, pos, ◌*ℤ◌, ◌+ℤ◌, ltb_ℤ}
use radixgates.Python.{Exc, Result, ok, raise, missing_file, is_exception}
use radixgates.Hardware.{Gpu, at_least_one, is_above, Output, scan_output}

-- `100 * used / max(total, 1)`, as num / den
pub record Share : Type 0 where
  pub num : ℤ
  pub den : ℕ

abbrev pub share_of : Gpu → Share
share_of g = record { num = 100 *ℤ g.used; den = at_least_one g.total }

abbrev pub ltb_share : Share → Share → Bool
ltb_share a b = ltb_ℤ (b.den *ℤ a.num) (a.den *ℤ b.num)

-- `max` and `min` of a list that begins with the first argument
unfoldable pub most : Share → List Share → Share
most a [] = a
most a (b ∷ l) = most (if ltb_share a b then b else a) l

unfoldable pub least : Share → List Share → Share
least a [] = a
least a (b ∷ l) = least (if ltb_share b a then b else a) l

-- `max(usages) - min(usages) < 5`
unfoldable pub is_balanced : Share → List Share → Bool
unfolding most least
is_balanced a l =
    let high = most a l in
    let low = least a l in
    ltb_ℤ (low.den *ℤ high.num) (high.den *ℤ low.num +ℤ pos (5 * high.den * low.den))

-- What follows the GPUs: nothing, the sentence that only one has an allocation, or the claim of
-- the demo with the spread, where the flag says "balanced".
pub data Claim : Type 0 where
  silent only_one : Claim
  claimed : Bool → Claim

unfoldable pub ep_claim : List Gpu → Claim
unfolding is_balanced is_above
ep_claim (g ∷ h ∷ rows) =
    if all (is_above 20) (g ∷ h ∷ rows)
    then claimed (is_balanced (share_of g) (map share_of (h ∷ rows)))
    else only_one
ep_claim _ = silent

-- "each GPU holds an independent full model replica" is printed here whatever the shares are
unfoldable pub dp_claim : List Gpu → Claim
unfolding is_balanced
dp_claim [] = silent
dp_claim (g ∷ rows) =
    if leb 4 (length (g ∷ rows))
    then claimed (is_balanced (share_of g) (map share_of rows))
    else silent

pub data Closing : Type 0 where
  claim : Claim → Closing
  unavailable : Closing
  error : Exc → Closing

abbrev pub closing_of : Option Exc → Claim → Closing
closing_of none c = claim c
closing_of (some missing_file) c = unavailable
closing_of (some e) c = error e

-- The whole check, with either claim. An exception that `except Exception` does not catch is
-- raised.
unfoldable pub check_with : (List Gpu → Claim) → Output → Result (List Gpu × Closing)
unfolding scan_output
check_with f (raise e) = if is_exception e then ok ([], closing_of (some e) silent) else raise e
check_with f (ok out) = let (gpus, e) = scan_output out in ok (gpus, closing_of e (f gpus))

unfoldable pub ep_check : Output → Result (List Gpu × Closing)
unfolding check_with ep_claim
ep_check = check_with ep_claim

unfoldable pub dp_check : Output → Result (List Gpu × Closing)
unfolding check_with dp_claim
dp_check = check_with dp_claim
