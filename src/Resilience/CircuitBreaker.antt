-- ===== src/Resilience/CircuitBreaker.antt =====
-- The circuit breaker of libs/resilience/tool_adapter_base.py, which counts successes and opens by a
-- ratio too. A call awaits its function between `admit` and one of `on_success` and `on_failure`.
-- Times are whole milliseconds, and the ratio is in hundredths.
pub mod Runs
pub mod Recovery
use multi_ai_agent.Prelude.{
  ℕ, ◌+◌, ◌*◌, Bool, true, false, ◌||◌, Option, none, some, leb, ltb, if◌then◌else◌, Result, ok,
  err,
}

pub data CircuitState : Type 0 where
  closed : CircuitState
  opened : CircuitState
  half_open : CircuitState

pub record CircuitBreakerConfig : Type 0 where
  pub failure_threshold : ℕ
  pub recovery_timeout : ℕ
  pub failure_ratio : ℕ
  pub minimum_requests : ℕ

pub record CircuitBreaker : Type 0 where
  pub config : CircuitBreakerConfig
  pub state : CircuitState
  pub failure_count : ℕ
  pub success_count : ℕ
  pub last_failure_time : Option ℕ

unfoldable pub init : CircuitBreakerConfig → CircuitBreaker
init config = record {
  config = config;
  state = closed;
  failure_count = 0;
  success_count = 0;
  last_failure_time = none;
}

-- `now - last_failure_time >= recovery_timeout`, with the subtraction moved to the other side
abbrev pub should_attempt_reset : Option ℕ → ℕ → ℕ → Bool
should_attempt_reset none timeout now = true
should_attempt_reset (some t) timeout now = leb (t + timeout) now

abbrev pub admit_state : CircuitState → CircuitBreaker → ℕ → CircuitBreaker × Bool
admit_state opened b now =
    if should_attempt_reset b.last_failure_time b.config.recovery_timeout now
    then (record b { state = half_open; success_count = 0 }, true)
    else (b, false)
admit_state closed b now = (b, true)
admit_state half_open b now = (b, true)

-- the first part of `call`: whether the function is called at all
unfoldable pub admit : CircuitBreaker → ℕ → CircuitBreaker × Bool
admit b now = admit_state b.state b now

abbrev pub succeed_in : CircuitState → CircuitBreaker → CircuitBreaker
succeed_in half_open b =
    if leb b.config.minimum_requests b.success_count
    then record b { state = closed; failure_count = 0 }
    else b
succeed_in closed b = b
succeed_in opened b = b

unfoldable pub on_success : CircuitBreaker → CircuitBreaker
on_success b = let b' = record b { success_count = b.success_count + 1 } in succeed_in b'.state b'

-- `failure_count / total_requests >= failure_ratio`, multiplied out
unfoldable pub should_open_circuit : CircuitBreaker → Bool
should_open_circuit b =
    let total_requests = b.failure_count + b.success_count in
    if ltb total_requests b.config.minimum_requests
    then false
    else leb b.config.failure_threshold b.failure_count
      || leb (b.config.failure_ratio * total_requests) (b.failure_count * 100)

abbrev pub fail_in : CircuitState → CircuitBreaker → CircuitBreaker
fail_in half_open b = record b { state = opened }
fail_in closed b = if should_open_circuit b then record b { state = opened } else b
fail_in opened b = if should_open_circuit b then record b { state = opened } else b

unfoldable pub on_failure : CircuitBreaker → ℕ → CircuitBreaker
on_failure b now =
    let b' = record b { failure_count = b.failure_count + 1; last_failure_time = some now } in
    fail_in b'.state b'

-- What a caller sees: the result, the exception of the function, or "Circuit breaker is OPEN".
pub data CallError {ℓ} (E : Type ℓ) : Type ℓ where
  raised : E → CallError E
  breaker_open : CallError E

module _ {ℓ κ} {E : Type ℓ} {A : Type κ} where
  abbrev pub settle : CircuitBreaker → ℕ → Result E A → CircuitBreaker × Result (CallError E) A
  settle b now (ok a) = (on_success b, ok a)
  settle b now (err e) = (on_failure b now, err (raised e))

  -- `call` with no other call during the wait
  unfoldable pub call :
      CircuitBreaker → ℕ → ℕ → Result E A → CircuitBreaker × Result (CallError E) A
  call b began ended r =
      let (b', admitted) = admit b began in
      if admitted then settle b' ended r else (b', err breaker_open)
