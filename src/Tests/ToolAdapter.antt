-- ===== src/Tests/ToolAdapter.antt =====
-- The tool adapters' base class of libs/resilience/tool_adapter_base.py on concrete requests.
use multi_ai_agent.Prelude.{
  ℕ, ◌+◌, ◌≡◌, ◌≤◌, ◌<◌, ◌⊎◌, refl, Bool, true, false, none, some, [], ◌∷◌, String, Result, ok, err,
  is_some, ltb, arith, if◌then◌else◌,
}
use multi_ai_agent.Prelude.Dict.{Dict, get, put}
use multi_ai_agent.Resilience.CircuitBreaker as Breaker
use multi_ai_agent.Resilience.CircuitBreaker.{
  CircuitBreaker, CircuitBreakerConfig, CallError, closed, opened, half_open, breaker_open,
}
use multi_ai_agent.Resilience.CircuitBreaker.Runs as Runs
use multi_ai_agent.Resilience.CircuitBreaker.Runs.{init-Reach-closed}
use multi_ai_agent.Resilience.CircuitBreaker.Recovery.{
  Recovered, succeed_all, recovery, call_refused,
}
use multi_ai_agent.Resilience.BulkheadPool as Pool
use multi_ai_agent.Resilience.BulkheadPool.{BulkheadPool, init-Reach-slots}
use multi_ai_agent.Resilience.ToolAdapter.{
  Redis, ToolAdapter, key_of, attempts_from, execute, get_result,
}
use multi_ai_agent.Resilience.ToolAdapter.Attempts.{Ends, attempts_from-Ends}
use multi_ai_agent.Resilience.ToolAdapter.Account.{Accounts, lost_with, SameSlots, execute-Accounts}
use multi_ai_agent.Resilience.ToolAdapter.Idempotency.{execute_again}

abbrev config : CircuitBreakerConfig
config = record {
  failure_threshold = 2;
  recovery_timeout = 60;
  failure_ratio = 50;
  minimum_requests = 2;
}

-- two failures open the circuit, and a call after the timeout makes it half-open
abbrev probing : CircuitBreaker
probing = (Breaker.admit (Breaker.on_failure (Breaker.on_failure (Breaker.init config) 5) 7) 70).0

probing_half_open : probing.state ≡ half_open
unfolding Breaker.admit Breaker.on_failure Breaker.init Breaker.should_open_circuit
probing_half_open = refl

init-Reach-closed_run :
    ((2 < 2) × (probing.state ≡ closed))
    ⊎ ((2 ≤ 2) × ((probing.state ≡ closed) ⊎ (is_some probing.last_failure_time ≡ true)))
init-Reach-closed_run =
    init-Reach-closed config 2 probing
      (Runs.next (Runs.next (Runs.next Runs.here (Runs.fail 5)) (Runs.fail 7)) (Runs.begin 70))

abbrev tripped : CircuitBreaker
tripped = record {
  config = config;
  state = opened;
  failure_count = 2;
  success_count = 0;
  last_failure_time = some 7;
}

recovery_example : Recovered 2 2 2 (succeed_all {A = String} tripped ((70, "x") ∷ (71, "y") ∷ []))
recovery_example = recovery tripped 7 70 "x" ((71, "y") ∷ []) refl refl (omega arith)

refused_early :
    Breaker.call {E = String} {A = String} tripped 50 51 (ok "x") ≡ (tripped, err breaker_open)
refused_early = call_refused tripped 7 50 51 (ok "x") refl refl (omega arith)

-- one task inside, one that was woken by the other that left
abbrev handed_over : BulkheadPool
handed_over = Pool.release (Pool.acquire (Pool.acquire (Pool.init 1)))

abbrev crowded : BulkheadPool
crowded = Pool.resume handed_over

release_wakes :
    handed_over
    ≡ record { max_concurrent = 1; semaphore = 0; waiting = 0; woken = 1; current_usage = 0 }
unfolding Pool.release Pool.acquire Pool.init Pool.wake_up_next
release_wakes = refl

init-Reach-slots_example :
    (crowded.current_usage ≤ 1)
    × (Pool.available_slots crowded ≡ crowded.semaphore + crowded.woken)
    × ((crowded.waiting ≡ 0) ⊎ (crowded.current_usage ≡ 1) ⊎ (0 < crowded.woken))
init-Reach-slots_example = init-Reach-slots 1 crowded (
    Pool.next
      (Pool.next (Pool.next (Pool.next Pool.here Pool.arrive) Pool.arrive)
        (Pool.leave (unfold Pool.acquire Pool.init in omega arith)))
      (Pool.enter (rw release_wakes (omega arith))))

-- a Redis that never fails
abbrev redis : Redis (Dict ℕ) ℕ
redis = record {
  get = λ r key. ok (get key r);
  setex = λ r key ttl v. ok (put key v r);
  truthy = λ v. ltb 0 v;
}

abbrev adapter : ToolAdapter (Dict ℕ)
adapter = record {
  has_redis = true;
  redis = [];
  key_ttl = 3600;
  circuit_breaker = Breaker.init config;
  bulkhead = Pool.init 3;
  metrics = record {
    total_requests = 0;
    successful_requests = 0;
    failed_requests = 0;
    circuit_breaker_opens = 0;
    bulkhead_rejections = 0;
    idempotency_hits = 0;
    retry_attempts = 0;
  };
}

abbrev again : ℕ → String → Bool
again k e = ltb k 3

abbrev flaky : ℕ → Result String ℕ
flaky k = if ltb k 2 then err "down" else ok 8

again_stops : (i : ℕ) (e : String) → 3 ≤ i → again i e ≡ false
again_stops i e h = ground arith

attempts_from-Ends_run :
    Ends again
      (λ k e. e)
      flaky
      1
      (attempts_from again (λ k e. e) flaky 2 1).0
      (attempts_from again (λ k e. e) flaky 2 1).1
attempts_from-Ends_run = attempts_from-Ends again (λ k e. e) flaky 3 2 1 again_stops (omega arith)

abbrev unwritable : Result String String
unwritable = err "not JSON serializable"

execute-Accounts_example :
    let a' = (execute {E = String} redis adapter none unwritable 5 6 (2, ok 8)).0 in
    Accounts (0 + lost_with (key_of adapter.has_redis none unwritable)) a'
    × SameSlots adapter.bulkhead a'.bulkhead
    × (a'.metrics.total_requests ≡ 0 + 1)
execute-Accounts_example =
    execute-Accounts redis adapter none unwritable 5 6 (2, ok 8) 0
      (record {
        each_once = omega arith;
        opens = omega arith;
        no_queue = unfold Pool.init in omega arith;
      })

execute_again_example :
    (a' : ToolAdapter (Dict ℕ)) × (execute {E = String} redis adapter none (ok "k") 5 6 (2, ok 8)
      ≡ (a', ok 8))
    × (execute {E = String} redis a' (some "k") unwritable 9 9 (1, err "down") ≡ (
      record a' {
        metrics = record a'.metrics {
          total_requests = a'.metrics.total_requests + 1;
          idempotency_hits = a'.metrics.idempotency_hits + 1;
        };
      },
      ok 8,
    ))
unfolding get_result get put Pool.init Breaker.admit Breaker.init
execute_again_example =
    execute_again redis adapter none (ok "k") "k" 5 6 2 8 (("k", 8) ∷ []) (some "k") unwritable 9 9
      (1, err "down") refl refl refl refl refl refl refl refl refl
