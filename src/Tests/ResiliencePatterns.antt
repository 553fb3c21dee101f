-- ===== src/Tests/ResiliencePatterns.antt =====
-- A function that fails once and a circuit that opens twice, for libs/utils/resilience_patterns.py.
use multi_ai_agent.Prelude.{
  ℕ, zero, suc, ◌+◌, ◌*◌, ◌≤◌, ◌≡◌, ◌⊎◌, refl, Bool, true, false, some, [], ◌∷◌, String, Result, ok,
}
use multi_ai_agent.Prelude.Dict.{get, put}
use multi_ai_agent.Utils.ResiliencePatterns.{
  ResilienceConfig, default_config, delay_after, retry_with_exponential_backoff, retry_from,
  with_timeout, circuit_breaker, settle_err, CircuitBreaker, configure_operation, get_config,
}
use multi_ai_agent.Utils.ResiliencePatterns.Openings.{Runs, opening, start, raises, openings_bound}
use multi_ai_agent.Utils.ResiliencePatterns.Retries.{
  outcome, Failed, delays, final, Settles, retry_outcome,
}

abbrev steady : ResilienceConfig
steady = record default_config { jitter = false; timeout = some 500 }

-- the first attempt times out
abbrev slow_first : ℕ → ℕ × Result String ℕ
slow_first zero = (900, ok 1)
slow_first (suc n) = (20, ok 7)

abbrev fraction : ℕ → ℕ
fraction k = 0

abbrev caught : String → Bool
caught e = true

first_is_retried :
    retry_with_exponential_backoff caught "timeout" steady fraction slow_first ≡ (1000 ∷ [], ok 7)
unfolding retry_with_exponential_backoff retry_from with_timeout delay_after
first_is_retried = refl

jitter_halves : delay_after default_config (λ k. 500) 2 ≡ 3000
unfolding delay_after
jitter_halves = refl

configured :
    get_config "pay" (
      configure_operation "pay" steady
        (record { default_config = default_config; operation_configs = [] }))
    ≡ steady
unfolding get_config get put
configured = refl

retry_outcome_example :
    (n : ℕ) × (n ≤ steady.max_retries)
    × Failed caught "timeout" steady fraction slow_first n 0
    × (retry_with_exponential_backoff caught "timeout" steady fraction slow_first ≡ (
      delays caught "timeout" steady fraction slow_first n 0,
      final caught "timeout" steady fraction slow_first
          (outcome caught "timeout" steady fraction slow_first n),
    ))
    × ((n ≡ steady.max_retries)
        ⊎ Settles caught "timeout" steady fraction slow_first
            (outcome caught "timeout" steady fraction slow_first n))
retry_outcome_example = retry_outcome caught "timeout" steady fraction slow_first

abbrev once : CircuitBreaker
once = settle_err 10 (circuit_breaker 2 60)

abbrev twice : CircuitBreaker
twice = settle_err 20 once

abbrev twice_runs :
    Runs 2 60 (0 + 1 + 1) (0 + opening (circuit_breaker 2 60) once + opening once twice) twice
twice_runs = raises 20 (raises 10 start)

openings_bound_example :
    2 * (0 + opening (circuit_breaker 2 60) once + opening once twice) ≤ 0 + 1 + 1
openings_bound_example = openings_bound twice_runs
