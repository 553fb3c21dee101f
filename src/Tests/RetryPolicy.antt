-- ===== src/Tests/RetryPolicy.antt =====
-- The retry policy of libs/adapters/retry_policy.py on concrete functions.
use multi_ai_agent.Prelude.{
  ℕ, zero, suc, ◌*◌, ◌≤◌, ◌<◌, ◌≡◌, ◌+◌, refl, Bool, true, [], ◌∷◌, String, Result, ok, err, arith,
  ◌⊎◌, str_eq,
}
use multi_ai_agent.Prelude.Int.{ℤ, pos, negsuc}
use multi_ai_agent.Adapters.RetryPolicy.{
  RetryConfig, exponential, execute, calculate_delay, capped_delay, RetryError,
}
use multi_ai_agent.Adapters.RetryPolicy.Loop.{Retried, Final, delays, execute_outcome}
use multi_ai_agent.Adapters.RetryPolicy.Delay.{calculate_delay_bounds, capped_delay_mono, IsUniform}

-- three attempts, delays of 100, 200, 400, ... up to 300, the class of an exception is its name
abbrev config : RetryConfig String
config = record {
  max_attempts = 3;
  base_delay = 100;
  max_delay = 300;
  strategy = exponential;
  jitter = true;
  backoff_multiplier = 2;
  retryable_exceptions = "timeout" ∷ [];
}

-- a draw of half the range below 0
abbrev draw : ℕ → ℤ
draw zero = pos 0
draw (suc r) = negsuc 0

-- returns in the third attempt
abbrev flaky : ℕ → Result String ℕ
flaky (suc zero) = err "timeout"
flaky (suc (suc zero)) = err "timeout"
flaky n = ok n

flaky_run :
    execute str_eq config (λ _. draw) flaky
    ≡ record { result = ok 3; slept = 999 ∷ 1999 ∷ []; called = 3 }
unfolding execute calculate_delay
flaky_run = refl

execute_outcome_example :
    (n : ℕ) × (r : Result (RetryError String) ℕ) × Retried str_eq config (λ _. draw) flaky n 1
    × (n < 3)
    × Final str_eq config (λ _. draw) flaky (suc n) r
    × (execute str_eq config (λ _. draw) flaky
        ≡ record { result = r; slept = delays str_eq config (λ _. draw) flaky n 1; called = n + 1 })
execute_outcome_example = execute_outcome str_eq config (λ _. draw) flaky (omega arith)

draw-IsUniform : IsUniform draw
draw-IsUniform zero = omega arith
draw-IsUniform (suc r) = omega arith

calculate_delay_bounds_run :
    (9 * capped_delay config 2 ≤ calculate_delay config draw 2)
    × (calculate_delay config draw 2 ≤ 11 * capped_delay config 2)
    × (calculate_delay config draw 2 ≤ 11 * 300)
    × ((◌≡◌ {A = Bool} true true) ⊎ (calculate_delay config draw 2 ≡ 10 * capped_delay config 2))
calculate_delay_bounds_run = calculate_delay_bounds config draw 2 draw-IsUniform

capped_delay_mono_run : capped_delay config 1 ≤ capped_delay config 3
capped_delay_mono_run = capped_delay_mono config 1 3 (omega arith) (omega arith)
