-- ===== src/Resilience/ToolAdapter.antt =====
-- `ResilientToolAdapter.execute` of libs/resilience/tool_adapter_base.py, for a request that no other
-- one interrupts and nobody cancels, with the idempotency manager and the attempts of `_execute_with_retry`. The Redis
-- client and tenacity's `retry` are parameters. The write-ahead log is left out: its errors are
-- swallowed, and `execute` never reads it.
pub mod Attempts
pub mod Account
pub mod Idempotency
use multi_ai_agent.Prelude.{
  ℕ, zero, suc, ◌+◌, Bool, true, false, ◌&&◌, not, Option, none, some, String, str_eq,
  if◌then◌else◌, Result, ok, err,
}
use multi_ai_agent.Resilience.CircuitBreaker as Breaker
use multi_ai_agent.Resilience.CircuitBreaker.{CircuitBreaker, CircuitState, CallError}
use multi_ai_agent.Resilience.BulkheadPool as Pool
use multi_ai_agent.Resilience.BulkheadPool.{BulkheadPool}

-- what the idempotency manager uses of Redis, with the JSON that it writes and reads
pub record Redis (R V : Type 0) : Type 0 where
  pub get : R → String → Result String (Option V)
  -- with the seconds that the value is kept
  pub setex : R → String → ℕ → V → Result String R
  -- whether a result counts as true: an empty dict does not
  pub truthy : V → Bool

pub record Metrics : Type 0 where
  pub total_requests : ℕ
  pub successful_requests : ℕ
  pub failed_requests : ℕ
  pub circuit_breaker_opens : ℕ
  pub bulkhead_rejections : ℕ
  pub idempotency_hits : ℕ
  pub retry_attempts : ℕ

pub record ToolAdapter (R : Type 0) : Type 0 where
  pub has_redis : Bool
  pub redis : R
  pub key_ttl : ℕ
  pub circuit_breaker : CircuitBreaker
  pub bulkhead : BulkheadPool
  pub metrics : Metrics

pub data ExecuteError (E : Type 0) : Type 0 where
  bulkhead_timeout : ExecuteError E
  -- what `generate_key` raises for a payload that JSON cannot write
  key_failed : String → ExecuteError E
  operation_failed : CallError E → ExecuteError E

module _ {E V : Type 0} where
  -- the attempts from the number `k` on, with tenacity's answers: whether it tries again after an
  -- attempt failed, and what it raises when it does not; with how many there are
  unfoldable pub attempts_from :
      (ℕ → E → Bool) → (ℕ → E → E) → (ℕ → Result E V) → ℕ → ℕ → ℕ × Result E V
  attempts_from again raised attempt zero k = elim (attempt k) [
    | ok v ↦ (1, ok v)
    | err e ↦ (1, err (raised k e))
  ]
  attempts_from again raised attempt (suc fuel) k =
      let later = attempts_from again raised attempt fuel (suc k) in
      elim (attempt k) [
        | ok v ↦ (1, ok v)
        | err e ↦ if again k e then (suc later.0, later.1) else (1, err (raised k e))
      ]

abbrev pub is_open : CircuitState → Bool
is_open Breaker.opened = true
is_open Breaker.closed = false
is_open Breaker.half_open = false

abbrev pub count_end : Bool → Metrics → Metrics
count_end true m = record m {
  failed_requests = m.failed_requests + 1;
  circuit_breaker_opens = m.circuit_breaker_opens + 1;
}
count_end false m = record m { failed_requests = m.failed_requests + 1 }

abbrev pub count_attempts : Bool → ℕ → Metrics → Metrics
count_attempts admitted n m =
    if admitted then record m { retry_attempts = m.retry_attempts + n } else m

-- whether the idempotency manager is asked: it exists, and the key is not empty
abbrev pub keyed : {R : Type 0} → ToolAdapter R → String → Bool
keyed a key = a.has_redis && not (str_eq key "")

-- the key of a request; without an idempotency manager none is generated, and an empty one is none
abbrev pub key_of : Bool → Option String → Result String String → Result String String
key_of has_redis (some key) generated = ok key
key_of true none generated = generated
key_of false none generated = ok ""

module _ {V R : Type 0} (redis : Redis R V) where
  abbrev read_reply : Result String (Option V) → Option V
  read_reply (ok (some v)) = if redis.truthy v then some v else none
  read_reply (ok none) = none
  read_reply (err e) = none

  -- `get_result`, and the test of its answer
  unfoldable pub get_result : R → String → Option V
  get_result r key = read_reply (redis.get r key)

  abbrev write_reply : Result String R → R → R
  write_reply (ok r') r = r'
  write_reply (err e) r = r

  unfoldable pub set_result : R → String → ℕ → V → R
  set_result r key key_ttl v = write_reply (redis.setex r key key_ttl v) r

  abbrev pub cached : ToolAdapter R → String → Option V
  cached a key = if keyed a key then get_result a.redis key else none

module _ {E V R : Type 0} (redis : Redis R V) where
  -- what follows the call of the breaker, the `finally` included
  abbrev pub settle_request :
      ToolAdapter R
      → String
      → CircuitBreaker × Result (CallError E) V
      → ToolAdapter R × Result (ExecuteError E) V
  settle_request a key (b, ok v) = (
    record a {
      redis = if keyed a key then set_result redis a.redis key a.key_ttl v else a.redis;
      circuit_breaker = b;
      bulkhead = Pool.release a.bulkhead;
      metrics = record a.metrics { successful_requests = a.metrics.successful_requests + 1 };
    },
    ok v,
  )
  settle_request a key (b, err e) = (
    record a {
      circuit_breaker = b;
      bulkhead = Pool.release a.bulkhead;
      metrics = count_end (is_open b.state) a.metrics;
    },
    err (operation_failed e),
  )

  -- the part with a slot: `run` is what `_execute_with_retry` comes to, after so many attempts
  abbrev pub with_slot :
      ToolAdapter R → String → ℕ → ℕ → ℕ × Result E V → ToolAdapter R × Result (ExecuteError E) V
  with_slot a key began ended run =
      let a' = record a {
        bulkhead = Pool.acquire a.bulkhead;
        metrics = count_attempts (Breaker.admit a.circuit_breaker began).1 run.0 a.metrics;
      } in
      settle_request a' key (Breaker.call a'.circuit_breaker began ended run.1)

  abbrev pub reject : ToolAdapter R → ToolAdapter R × Result (ExecuteError E) V
  reject a = (
    record a {
      metrics = record a.metrics { bulkhead_rejections = a.metrics.bulkhead_rejections + 1 };
    },
    err bulkhead_timeout,
  )

  abbrev pub hit : ToolAdapter R → V → ToolAdapter R × Result (ExecuteError E) V
  hit a v = (
    record a { metrics = record a.metrics { idempotency_hits = a.metrics.idempotency_hits + 1 } },
    ok v,
  )

  -- where the semaphore gives no slot at once, an uninterrupted request waits until its timeout
  abbrev pub proceed :
      Option V
      → ToolAdapter R
      → String
      → ℕ
      → ℕ
      → ℕ × Result E V
      → ToolAdapter R × Result (ExecuteError E) V
  proceed (some v) a key began ended run = hit a v
  proceed none a key began ended run =
      if Pool.is_free a.bulkhead then with_slot a key began ended run else reject a

  abbrev pub with_key :
      ToolAdapter R
      → Result String String
      → ℕ
      → ℕ
      → ℕ × Result E V
      → ToolAdapter R × Result (ExecuteError E) V
  with_key a (ok key) began ended run = proceed (cached redis a key) a key began ended run
  with_key a (err e) began ended run = (a, err (key_failed e))

  -- `given` is the idempotency key of the caller, and `generated` what `generate_key` comes to.
  unfoldable pub execute :
      ToolAdapter R
      → Option String
      → Result String String
      → ℕ
      → ℕ
      → ℕ × Result E V
      → ToolAdapter R × Result (ExecuteError E) V
  execute a given generated began ended run =
      let a' = record a {
        metrics = record a.metrics { total_requests = a.metrics.total_requests + 1 };
      } in
      with_key a' (key_of a.has_redis given generated) began ended run
