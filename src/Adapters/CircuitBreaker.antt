-- ===== src/Adapters/CircuitBreaker.antt =====
-- libs/adapters/circuit_breaker.py: the circuit breaker and the manager of the named breakers.
-- A time is the number of ticks that `time.time()` shows; the clock may go back between two reads.
-- `call` awaits its function between `admit` and one of `settle_ok` and `settle_err`, and other
-- calls run during the wait. Log lines change no state and are left out.
pub mod Calls
pub mod Runs
pub mod Manager
use multi_ai_agent.Prelude.{
  ℕ, zero, suc, ◌+◌, ◌-◌, ◌≤◌, ◌<◌, ◌≡◌, Bool, true, false, ◌&&◌, not, Option, none, some, List, [],
  ◌∷◌, String, leb, ltb, if◌then◌else◌, Result, ok, err,
}

pub data CircuitState : Type 0 where
  closed : CircuitState
  opened : CircuitState
  half_open : CircuitState

pub record Breaker : Type 0 where
  pub name : String
  pub failure_threshold : ℕ
  pub recovery_timeout : ℕ
  pub failure_count : ℕ
  pub last_failure_time : Option ℕ
  pub state : CircuitState
  pub total_calls : ℕ
  pub successful_calls : ℕ
  pub failed_calls : ℕ
  pub circuit_opened_count : ℕ

unfoldable pub init : String → ℕ → ℕ → Breaker
init name failure_threshold recovery_timeout = record {
  name = name;
  failure_threshold = failure_threshold;
  recovery_timeout = recovery_timeout;
  failure_count = 0;
  last_failure_time = none;
  state = closed;
  total_calls = 0;
  successful_calls = 0;
  failed_calls = 0;
  circuit_opened_count = 0;
}

abbrev pub is_opened : CircuitState → Bool
is_opened opened = true
is_opened _ = false

-- `now - last_failure_time >= recovery_timeout`, with the subtraction moved to the other side
abbrev elapsed : Option ℕ → ℕ → ℕ → Bool
elapsed none timeout now = true
elapsed (some t) timeout now = leb (t + timeout) now

unfoldable pub should_attempt_reset : Breaker → ℕ → Bool
should_attempt_reset b now = elapsed b.last_failure_time b.recovery_timeout now

unfoldable pub on_success : Breaker → Breaker
on_success b = record b { failure_count = 0; state = closed; last_failure_time = none }

-- the transition to OPEN is counted only if the breaker is not open already
abbrev trip : CircuitState → Breaker → Breaker
trip opened b = b
trip _ b = record b { state = opened; circuit_opened_count = b.circuit_opened_count + 1 }

unfoldable pub on_failure : Breaker → ℕ → Breaker
on_failure b now =
    let b' = record b { failure_count = b.failure_count + 1; last_failure_time = some now } in
    if leb b'.failure_threshold b'.failure_count then trip b'.state b' else b'

abbrev admit_state : CircuitState → Breaker → ℕ → Breaker × Bool
admit_state opened b now =
    if elapsed b.last_failure_time b.recovery_timeout now
    then (record b { state = half_open }, true)
    else (record b { failed_calls = b.failed_calls + 1 }, false)
admit_state _ b now = (b, true)

-- The first part of `call`: counts the call, and refuses it while the breaker is open.
unfoldable pub admit : Breaker → ℕ → Breaker × Bool
unfolding should_attempt_reset
admit b now = let b' = record b { total_calls = b.total_calls + 1 } in admit_state b'.state b' now

-- The second part of `call`, where the awaited function returned.
unfoldable pub settle_ok : Breaker → Breaker
unfolding on_success
settle_ok b = let b' = on_success b in record b' { successful_calls = b'.successful_calls + 1 }

-- The second part of `call`, where the awaited function raised: both handlers do the same.
unfoldable pub settle_err : Breaker → ℕ → Breaker
unfolding on_failure
settle_err b now = let b' = on_failure b now in record b' { failed_calls = b'.failed_calls + 1 }

-- What a caller of `call` sees: the result, the exception of the function, or
-- `CircuitBreakerOpenException`.
pub data CallError {ℓ} (E : Type ℓ) : Type ℓ where
  raised : E → CallError E
  breaker_open : CallError E

module _ {ℓ κ} {E : Type ℓ} {A : Type κ} where
  unfoldable pub settle : Breaker → ℕ → Result E A → Breaker × Result (CallError E) A
  unfolding settle_ok settle_err
  settle b now (ok a) = (settle_ok b, ok a)
  settle b now (err e) = (settle_err b now, err (raised e))

  -- `call` with nothing else running during the wait: the function's outcome `r`, the time at
  -- which the call begins, and the time that a failure is stamped with.
  unfoldable pub call : Breaker → ℕ → ℕ → Result E A → Breaker × Result (CallError E) A
  unfolding admit settle
  call b began ended r =
      let (b', admitted) = admit b began in
      if admitted then settle b' ended r else (b', err breaker_open)

pub record Stats : Type 0 where
  pub name : String
  pub state : CircuitState
  pub failure_count : ℕ
  pub total_calls : ℕ
  pub successful_calls : ℕ
  pub failed_calls : ℕ
  -- the success rate as numerator and denominator; 0 / 1 before the first call
  pub success_rate : ℕ × ℕ
  pub circuit_opened_count : ℕ
  pub last_failure_time : Option ℕ

unfoldable pub get_stats : Breaker → Stats
get_stats b = record {
  name = b.name;
  state = b.state;
  failure_count = b.failure_count;
  total_calls = b.total_calls;
  successful_calls = b.successful_calls;
  failed_calls = b.failed_calls;
  success_rate = if ltb 0 b.total_calls then (b.successful_calls, b.total_calls) else (0, 1);
  circuit_opened_count = b.circuit_opened_count;
  last_failure_time = b.last_failure_time;
}

unfoldable pub reset : Breaker → Breaker
reset b = record b { state = closed; failure_count = 0; last_failure_time = none }
