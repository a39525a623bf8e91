-- ===== src/Hardware/Spread/Laws.antt =====
-- What the claims of the two demos rest on.
use radixgates.Base.{
  List, [], ◌∷◌, Bool, true, false, ◌≡◌, refl, ◌↔◌, ◌≤◌, all, length, leb, arith, Bool-cases, inl,
  inr,
}
use radixgates.Hardware.{Gpu, is_above}
use radixgates.Hardware.Spread.{Claim, claimed, ep_claim, dp_claim}

abbrev pub is_claimed : Claim → Bool
is_claimed (claimed b) = true
is_claimed _ = false

-- The check of ep_demo.py makes its claim exactly if there are two GPUs or more and each uses over
-- 20% of its memory.
ep_claim_iff :
    (rows : List Gpu)
    → (is_claimed (ep_claim rows) ≡ true) ↔ ((2 ≤ length rows) × (all (is_above 20) rows ≡ true))
unfolding ep_claim
ep_claim_iff [] = (λ h. absurd (cc), λ h. absurd (omega arith))
ep_claim_iff (g ∷ []) = (λ h. absurd (cc), λ h. absurd (omega (arith, h.0)))
ep_claim_iff (g ∷ h ∷ rows) = elim (Bool-cases (all (is_above 20) (g ∷ h ∷ rows))) [
  | inl e ↦ rw e (λ _. (omega arith, refl), λ _. refl)
  | inr e ↦ rw e (λ p. absurd (cc), λ p. p.1)
]

-- The check of dp_demo.py makes its claim exactly if four GPUs or more are listed, whether or not
-- their memory is in use.
dp_claim_iff : (rows : List Gpu) → (is_claimed (dp_claim rows) ≡ true) ↔ (4 ≤ length rows)
unfolding dp_claim
dp_claim_iff [] = (λ h. absurd (cc), λ h. absurd (omega arith))
dp_claim_iff (g ∷ rows) = elim (Bool-cases (leb 4 (length (g ∷ rows)))) [
  | inl e ↦ rw e (λ _. ground arith, λ _. refl)
  | inr e ↦ rw e (λ p. absurd (cc), λ p. absurd (ground arith))
]
