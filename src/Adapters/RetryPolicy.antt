-- ===== src/Adapters/RetryPolicy.antt =====
-- libs/adapters/retry_policy.py. Delays and their multiplier are whole numbers of ticks; a delay
-- with jitter is counted in tenths of a tick, so that a tenth of a delay is exact.
-- Exceptions are of a type `E` with classes `C`; `isinstance` and `random.uniform` are parameters.
pub mod Loop
pub mod Delay
use multi_ai_agent.Prelude.{
  ℕ, zero, suc, ◌+◌, ◌-◌, ◌*◌, ◌^◌, min, Bool, true, false, Option, none, some, List, [], ◌∷◌, leb,
  if◌then◌else◌, Result, ok, err, any,
}
use multi_ai_agent.Prelude.Int.{ℤ, pos, ◌+ℤ◌, pos_part}

pub data RetryStrategy : Type 0 where
  fixed : RetryStrategy
  exponential : RetryStrategy
  linear : RetryStrategy
  custom : RetryStrategy

pub record RetryConfig (C : Type 0) : Type 0 where
  pub max_attempts : ℕ
  pub base_delay : ℕ
  pub max_delay : ℕ
  pub strategy : RetryStrategy
  pub jitter : Bool
  pub backoff_multiplier : ℕ
  pub retryable_exceptions : List C

module _ {C : Type 0} where
  abbrev raw_delay : RetryStrategy → RetryConfig C → ℕ → ℕ
  raw_delay fixed c attempt = c.base_delay
  raw_delay exponential c attempt = c.base_delay * c.backoff_multiplier ^ (attempt - 1)
  raw_delay linear c attempt = c.base_delay * attempt
  raw_delay custom c attempt = c.base_delay

  unfoldable pub capped_delay : RetryConfig C → ℕ → ℕ
  capped_delay c attempt = min (raw_delay c.strategy c attempt) c.max_delay

  -- `_calculate_delay`. `uniform r` is a draw of `random.uniform(-r, r)`.
  unfoldable pub calculate_delay : RetryConfig C → (ℕ → ℤ) → ℕ → ℕ
  unfolding capped_delay ◌+ℤ◌
  calculate_delay c uniform attempt =
      let delay = capped_delay c attempt in
      if c.jitter then pos_part (pos (10 * delay) +ℤ uniform delay) else 10 * delay

  -- the constructors of the subclasses
  unfoldable pub exponential_backoff : C → ℕ → ℕ → ℕ → RetryConfig C
  exponential_backoff any_exception max_attempts base_delay max_delay = record {
    max_attempts = max_attempts;
    base_delay = base_delay;
    max_delay = max_delay;
    strategy = exponential;
    jitter = true;
    backoff_multiplier = 2;
    retryable_exceptions = any_exception ∷ [];
  }

  -- `max_delay` keeps its default, a minute
  unfoldable pub fixed_delay_retry : C → ℕ → ℕ → ℕ → RetryConfig C
  fixed_delay_retry any_exception a_minute max_attempts delay = record {
    max_attempts = max_attempts;
    base_delay = delay;
    max_delay = a_minute;
    strategy = fixed;
    jitter = false;
    backoff_multiplier = 2;
    retryable_exceptions = any_exception ∷ [];
  }

  unfoldable pub linear_backoff : C → ℕ → ℕ → ℕ → RetryConfig C
  linear_backoff any_exception max_attempts base_delay max_delay = record {
    max_attempts = max_attempts;
    base_delay = base_delay;
    max_delay = max_delay;
    strategy = linear;
    jitter = true;
    backoff_multiplier = 2;
    retryable_exceptions = any_exception ∷ [];
  }

-- What `execute` raises: the exception of the function, or `RetryExhaustedError` with its cause.
pub data RetryError (E : Type 0) : Type 0 where
  raised : E → RetryError E
  exhausted : Option E → RetryError E

-- The result, with the delays that were slept and the number of calls of the function.
pub record Trace (E A : Type 0) : Type 0 where
  pub result : Result (RetryError E) A
  pub slept : List ℕ
  pub called : ℕ

module _ {E A C : Type 0} (is_instance : E → C → Bool) (c : RetryConfig C) (uniform : ℕ → ℕ → ℤ)
    (func : ℕ → Result E A) where
  unfoldable pub is_retryable : E → Bool
  is_retryable e = any (is_instance e) c.retryable_exceptions

  abbrev pub delay_after : ℕ → ℕ
  delay_after attempt = calculate_delay c (uniform attempt) attempt

  -- One pass of the loop in `execute`: `later` is what the passes after it do.
  abbrev pass : Result E A → ℕ → (E → Trace E A) → Trace E A
  pass (ok a) attempt later = record { result = ok a; slept = []; called = 1 }
  pass (err e) attempt later =
      if is_retryable e
      then (if leb c.max_attempts attempt
          then record { result = err (exhausted (some e)); slept = []; called = 1 }
          else (let rest = later e in
              record {
                result = rest.result;
                slept = delay_after attempt ∷ rest.slept;
                called = rest.called + 1;
              }))
      else record { result = err (raised e); slept = []; called = 1 }

  -- `for attempt in range(attempt, ...)` with the passes left; behind the loop stands a raise.
  unfoldable pub execute_from : ℕ → ℕ → Option E → Trace E A
  execute_from zero attempt last_exception = record {
    result = err (exhausted last_exception);
    slept = [];
    called = 0;
  }
  execute_from (suc left) attempt last_exception =
      pass (func attempt) attempt (λ e. execute_from left (suc attempt) (some e))

  -- `func n` is what the function does when it is awaited for the n-th time.
  unfoldable pub execute : Trace E A
  unfolding execute_from is_retryable
  execute = execute_from c.max_attempts 1 none
