-- ===== src/RealEngine/Pool/Count.antt =====
-- Sums over the phases of the first requests.
use radixgates.Base.{ℕ, zero, suc, ◌+◌, ◌*◌, ◌<◌, ◌≤◌, ◌≡◌, refl, Bool-cases, inl, inr, arith, ltb}
use radixgates.RealEngine.Pool.{Phase, update}

module _ (w : Phase → ℕ) where
  unfoldable pub total : ℕ → (ℕ → Phase) → ℕ
  total zero f = 0
  total (suc n) f = total n f + w (f n)

  total-update_past :
      (n : ℕ) (f : ℕ → Phase) (i : ℕ) (p : Phase) → n ≤ i → total n (update f i p) ≡ total n f
  unfolding total
  total-update_past zero f i p h = refl
  total-update_past (suc n) f i p h = ground (arith, total-update_past n f i p)

  pub total-update :
      (n : ℕ) (f : ℕ → Phase) (i : ℕ) (p : Phase)
      → i < n
      → total n (update f i p) + w (f i) ≡ total n f + w p
  unfolding total
  total-update zero f i p h = absurd (omega arith)
  total-update (suc n) f i p h = elim (Bool-cases (ltb i n)) [
    | inl e ↦ ground (arith, total-update n f i p)
    | inr e ↦ ground (arith, total-update_past n f i p)
  ]

  -- a sum above 0 has a term above 0
  pub total-pos : (n : ℕ) (f : ℕ → Phase) → 0 < total n f → (i : ℕ) × (i < n) × (0 < w (f i))
  unfolding total
  total-pos zero f h = absurd (omega arith)
  total-pos (suc n) f h = elim (Bool-cases (ltb 0 (w (f n)))) [
    | inl e ↦ (n, omega arith, ground arith)
    | inr e ↦ let (i, lt, more) = total-pos n f (ground arith) in (i, omega arith, more)
  ]

  -- a sum of 0 has no other terms
  pub total-zero : (n : ℕ) (f : ℕ → Phase) → total n f ≡ 0 → (i : ℕ) → i < n → w (f i) ≡ 0
  unfolding total
  total-zero zero f h i lt = absurd (omega arith)
  total-zero (suc n) f h i lt = elim (Bool-cases (ltb i n)) [
    | inl e ↦ total-zero n f (omega arith) i (ground arith)
    | inr e ↦ let same : i ≡ n = ground arith in rw same (omega arith)
  ]

  pub total-same : (n c : ℕ) → w Phase.queued ≡ c → total n (λ _. Phase.queued) ≡ n * c
  unfolding total
  total-same zero c h = omega arith
  total-same (suc n) c h = omega (arith, total-same n c h)
