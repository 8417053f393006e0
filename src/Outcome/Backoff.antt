-- ===== src/Outcome/Backoff.antt =====
-- The retry schedule of outcomes.rs.
use skill_hive.Prelude.{ℕ, zero, suc, ◌^◌, ◌≤◌, ◌-◌, min, ◌≡◌, refl, ap, arith}
use skill_hive.Outcome.Apply.{backoff_seconds}

-- The first exponents, which are all that the cap leaves.
capped_powers : (e : ℕ) → e ≤ 6 → min (min (2 ^ e) (2 ^ 64 - 1)) 64 ≡ 2 ^ e
capped_powers zero h = refl
capped_powers (suc zero) h = refl
capped_powers (suc (suc zero)) h = refl
capped_powers (suc (suc (suc zero))) h = refl
capped_powers (suc (suc (suc (suc zero)))) h = refl
capped_powers (suc (suc (suc (suc (suc zero))))) h = refl
capped_powers (suc (suc (suc (suc (suc (suc zero)))))) h = refl
capped_powers (suc (suc (suc (suc (suc (suc (suc e))))))) h = absurd (omega arith)

-- The delay before the next attempt is 2 to the power of the attempts so far, of which at most
-- six count: no intermediate value saturates.
pub backoff_eq_pow : (retry_count : ℕ) → backoff_seconds retry_count ≡ 2 ^ min retry_count 6
unfolding backoff_seconds
backoff_eq_pow retry_count = capped_powers (min retry_count 6) (omega arith)

power_bounds : (e : ℕ) → e ≤ 6 → (1 ≤ 2 ^ e) × (2 ^ e ≤ 64)
power_bounds zero h = omega arith
power_bounds (suc zero) h = omega arith
power_bounds (suc (suc zero)) h = omega arith
power_bounds (suc (suc (suc zero))) h = omega arith
power_bounds (suc (suc (suc (suc zero)))) h = omega arith
power_bounds (suc (suc (suc (suc (suc zero))))) h = omega arith
power_bounds (suc (suc (suc (suc (suc (suc zero)))))) h = omega arith
power_bounds (suc (suc (suc (suc (suc (suc (suc e))))))) h = absurd (omega arith)

-- For every retry counter, the delay lies between one and 64 seconds, is 2 to the power of the
-- counter up to six, and is 64 seconds from there on.
pub backoff_schedule :
    (retry_count : ℕ)
    → (1 ≤ backoff_seconds retry_count)
      × (backoff_seconds retry_count ≤ 64)
      × (retry_count ≤ 6 → backoff_seconds retry_count ≡ 2 ^ retry_count)
      × (6 ≤ retry_count → backoff_seconds retry_count ≡ 64)
backoff_schedule retry_count =
    let (low, high) = power_bounds (min retry_count 6) (omega arith) in
    rw (backoff_eq_pow retry_count) (
      low,
      high,
      λ h. ap (λ (e : ℕ). 2 ^ e) (min_small retry_count h),
      λ h. ap (λ (e : ℕ). 2 ^ e) (min_large retry_count h),
    )
  where
    min_small : (n : ℕ) → n ≤ 6 → min n 6 ≡ n
    min_small n h = omega arith

    min_large : (n : ℕ) → 6 ≤ n → min n 6 ≡ 6
    min_large n h = omega arith
