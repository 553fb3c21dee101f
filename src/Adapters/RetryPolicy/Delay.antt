-- ===== src/Adapters/RetryPolicy/Delay.antt =====
-- Bounds of the delays, and their growth from attempt to attempt.
use native.Mathlib.Nat.{le_refl, mul-le-mul_left, pow-le-pow_right}
use multi_ai_agent.Prelude.{ℕ, ◌*◌, ◌≤◌, ◌<◌, min, ◌≡◌, true, arith, ◌⊎◌}
use multi_ai_agent.Prelude.Int.{ℤ, pos_part, neg_part}
use multi_ai_agent.Adapters.RetryPolicy.{
  RetryConfig, RetryStrategy, fixed, exponential, linear, custom, capped_delay, calculate_delay,
  raw_delay,
}

-- What `random.uniform(-r, r)` is documented to return: a number from -r to r.
abbrev pub IsUniform : (ℕ → ℤ) → Type 0
IsUniform uniform = (r : ℕ) → (pos_part (uniform r) ≤ r) × (neg_part (uniform r) ≤ r)

module _ {C : Type 0} (c : RetryConfig C) where
  -- A delay, in tenths of a tick, differs from ten times the capped delay by a tenth at most, so it
  -- is never more than 1.1 times `max_delay`; without jitter it is the capped delay itself.
  pub calculate_delay_bounds :
      (uniform : ℕ → ℤ) (attempt : ℕ)
      → IsUniform uniform
      → (9 * capped_delay c attempt ≤ calculate_delay c uniform attempt)
        × (calculate_delay c uniform attempt ≤ 11 * capped_delay c attempt)
        × (calculate_delay c uniform attempt ≤ 11 * c.max_delay)
        × ((c.jitter ≡ true) ⊎ (calculate_delay c uniform attempt ≡ 10 * capped_delay c attempt))
  unfolding calculate_delay
  calculate_delay_bounds uniform attempt u =
      ground (arith, u (min (raw_delay c.strategy c attempt) c.max_delay))

  raw_delay_mono :
      (s : RetryStrategy) (attempt later : ℕ)
      → 0 < c.backoff_multiplier
      → attempt ≤ later
      → raw_delay s c attempt ≤ raw_delay s c later
  raw_delay_mono fixed attempt later h le = le_refl c.base_delay
  raw_delay_mono exponential attempt later h le =
      mul-le-mul_left c.base_delay (pow-le-pow_right h (omega arith))
  raw_delay_mono linear attempt later h le = mul-le-mul_left c.base_delay le
  raw_delay_mono custom attempt later h le = le_refl c.base_delay

  -- A later attempt never waits less, before jitter, if the multiplier is positive.
  pub capped_delay_mono :
      (attempt later : ℕ)
      → 0 < c.backoff_multiplier
      → attempt ≤ later
      → capped_delay c attempt ≤ capped_delay c later
  unfolding capped_delay
  capped_delay_mono attempt later h le = omega (arith, raw_delay_mono c.strategy attempt later h le)
