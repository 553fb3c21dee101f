-- ===== src/Utils/ResiliencePatterns.antt =====
-- libs/utils/resilience_patterns.py. Times are milliseconds. A call of the circuit breaker's wrapper
-- is cut where it awaits the function: `admit`, then `settle_ok` or `settle_err`. What a function does
-- in an attempt, how long it takes and the fraction of the second that jitter reads (in thousandths)
-- are arguments; a delay is rounded down.
pub mod Openings
pub mod Retries
use multi_ai_agent.Prelude.{
  ℕ, zero, suc, ◌+◌, ◌-◌, ◌*◌, ◌/◌, ◌^◌, min, Bool, true, false, not, Option, none, some, List, [],
  ◌∷◌, String, ltb, leb, ◌==◌, if◌then◌else◌, Result, ok, err,
}
use multi_ai_agent.Prelude.Dict.{Dict, get, put}

pub record ResilienceConfig : Type 0 where
  pub max_retries : ℕ
  pub base_delay : ℕ
  pub max_delay : ℕ
  pub exponential_base : ℕ
  pub jitter : Bool
  pub timeout : Option ℕ

abbrev pub default_config : ResilienceConfig
default_config = record {
  max_retries = 3;
  base_delay = 1000;
  max_delay = 60000;
  exponential_base = 2;
  jitter = true;
  timeout = none;
}

-- what raises at the end: an exception of the function, or `raise None`
pub data Raised (E : Type 0) : Type 0 where
  raised : E → Raised E
  no_exception : Raised E

unfoldable pub delay_after : ResilienceConfig → (ℕ → ℕ) → ℕ → ℕ
delay_after config fraction attempt =
    let delay = min (config.base_delay * config.exponential_base ^ attempt) config.max_delay in
    if config.jitter then (delay * (1000 + fraction attempt)) / 2000 else delay

abbrev last_raised : {E : Type 0} → Option E → Raised E
last_raised none = no_exception
last_raised (some e) = raised e

module _ {E A : Type 0} where
  -- the outcome of an attempt that takes so long, under a timeout; one of 0 is none
  unfoldable pub with_timeout : E → Option ℕ → ℕ × Result E A → Result E A
  with_timeout timed_out none (duration, outcome) = outcome
  with_timeout timed_out (some zero) (duration, outcome) = outcome
  with_timeout timed_out (some (suc t)) (duration, outcome) =
      if ltb (suc t) duration then err timed_out else outcome

  -- the passes left, and what is slept between the attempts
  unfoldable pub retry_from :
      (E → Bool)
      → E
      → ResilienceConfig
      → (ℕ → ℕ)
      → (ℕ → ℕ × Result E A)
      → ℕ
      → ℕ
      → Option E
      → List ℕ × Result (Raised E) A
  retry_from caught timed_out config fraction func zero attempt last = ([], err (last_raised last))
  retry_from caught timed_out config fraction func (suc left) attempt last =
      let later =
        λ (e : E). retry_from caught timed_out config fraction func left (suc attempt) (some e) in
      elim (with_timeout timed_out config.timeout (func attempt)) [
        | ok a ↦ ([], ok a)
        | err e ↦
            if not (caught e)
            then ([], err (raised e))
            else if attempt == config.max_retries
            then ([], err (raised e))
            else (delay_after config fraction attempt ∷ (later e).0, (later e).1)
      ]

  unfoldable pub retry_with_exponential_backoff :
      (E → Bool)
      → E
      → ResilienceConfig
      → (ℕ → ℕ)
      → (ℕ → ℕ × Result E A)
      → List ℕ × Result (Raised E) A
  retry_with_exponential_backoff caught timed_out config fraction func =
      retry_from caught timed_out config fraction func (suc config.max_retries) 0 none

pub record CircuitBreaker : Type 0 where
  pub failure_threshold : ℕ
  pub recovery_timeout : ℕ
  pub failure_count : ℕ
  pub last_failure_time : ℕ
  pub circuit_open : Bool

abbrev pub circuit_breaker : ℕ → ℕ → CircuitBreaker
circuit_breaker failure_threshold recovery_timeout = record {
  failure_threshold = failure_threshold;
  recovery_timeout = recovery_timeout;
  failure_count = 0;
  last_failure_time = 0;
  circuit_open = false;
}

-- whether the function is called
unfoldable pub admit : ℕ → CircuitBreaker → CircuitBreaker × Bool
admit now b =
    if b.circuit_open
    then if ltb (b.last_failure_time + b.recovery_timeout) now
      then (record b { circuit_open = false; failure_count = 0 }, true)
      else (b, false)
    else (b, true)

unfoldable pub settle_ok : CircuitBreaker → CircuitBreaker
settle_ok b = record b { failure_count = 0 }

unfoldable pub settle_err : ℕ → CircuitBreaker → CircuitBreaker
settle_err now b = record b {
  failure_count = b.failure_count + 1;
  last_failure_time = now;
  circuit_open = if leb b.failure_threshold (b.failure_count + 1) then true else b.circuit_open;
}

pub record ResilienceManager : Type 0 where
  pub default_config : ResilienceConfig
  pub operation_configs : Dict ResilienceConfig

abbrev pub configure_operation : String → ResilienceConfig → ResilienceManager → ResilienceManager
configure_operation name config m = record m {
  operation_configs = put name config m.operation_configs;
}

abbrev config_or : ResilienceConfig → Option ResilienceConfig → ResilienceConfig
config_or default none = default
config_or default (some config) = config

unfoldable pub get_config : String → ResilienceManager → ResilienceConfig
get_config name m = config_or m.default_config (get name m.operation_configs)

-- Every exception is caught here.
unfoldable pub execute_with_resilience :
    {E A : Type 0}
    → E
    → (ℕ → ℕ)
    → (ℕ → ℕ × Result E A)
    → String
    → Option ResilienceConfig
    → ResilienceManager
    → List ℕ × Result (Raised E) A
execute_with_resilience timed_out fraction operation name config m =
    retry_with_exponential_backoff (λ e. true) timed_out (config_or (get_config name m) config)
      fraction operation
