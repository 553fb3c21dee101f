-- ===== src/Resilience/ToolAdapter/Idempotency.antt =====
-- A request with a key that has been answered before does nothing but answer again.
use multi_ai_agent.Prelude.{
  ℕ, ◌+◌, ◌≡◌, refl, ap, ◌∙◌, true, Option, none, some, String, Result, ok,
}
use multi_ai_agent.Resilience.CircuitBreaker as Breaker
use multi_ai_agent.Resilience.CircuitBreaker.{CircuitBreaker, CallError}
use multi_ai_agent.Resilience.BulkheadPool as Pool
use multi_ai_agent.Resilience.ToolAdapter.{
  Redis, ToolAdapter, key_of, keyed, get_result, set_result, settle_request, count_attempts, hit,
  execute,
}

-- the adapter with the slot taken
abbrev holding : {R : Type 0} → ToolAdapter R → ℕ → ℕ → ToolAdapter R
holding a began n = record a {
  bulkhead = Pool.acquire a.bulkhead;
  metrics =
      count_attempts (Breaker.admit a.circuit_breaker began).1 n
        (record a.metrics { total_requests = a.metrics.total_requests + 1 });
}

module _ {V R : Type 0} (redis : Redis R V) where
  -- what is stored is found
  stored :
      (r r' : R) (key : String) (ttl : ℕ) (v : V)
      → redis.setex r key ttl v ≡ ok r'
      → redis.get r' key ≡ ok (some v)
      → redis.truthy v ≡ true
      → get_result redis (set_result redis r key ttl v) key ≡ some v
  unfolding get_result set_result
  stored r r' key ttl v set get t = simp (set, get, t) refl

module _ {E V R : Type 0} (redis : Redis R V) where
  execute_hit :
      (a : ToolAdapter R) (given : Option String) (generated : Result String String) (key : String)
      (began ended : ℕ) (run : ℕ × Result E V) (v : V)
      → key_of a.has_redis given generated ≡ ok key
      → keyed a key ≡ true
      → get_result redis a.redis key ≡ some v
      → execute redis a given generated began ended run
        ≡ hit redis
            (record a {
              metrics = record a.metrics { total_requests = a.metrics.total_requests + 1 };
            })
            v
  unfolding execute
  execute_hit a given generated key began ended run v same k g = simp (same, k, g) refl

  call_ok :
      (b : CircuitBreaker) (began ended : ℕ) (v : V)
      → (Breaker.admit b began).1 ≡ true
      → Breaker.call {E = E} b began ended (ok v)
        ≡ ((Breaker.call {E = E} b began ended (ok v)).0, ok v)
  unfolding Breaker.call
  call_ok b began ended v h = simp (h) refl

  execute_miss :
      (a : ToolAdapter R) (given : Option String) (generated : Result String String) (key : String)
      (began ended n : ℕ) (v : V)
      → key_of a.has_redis given generated ≡ ok key
      → keyed a key ≡ true
      → get_result redis a.redis key ≡ none
      → Pool.is_free a.bulkhead ≡ true
      → execute {E = E} redis a given generated began ended (n, ok v)
        ≡ settle_request redis
            (holding a began n)
            key
            (Breaker.call {E = E} a.circuit_breaker began ended (ok v))
  unfolding execute
  execute_miss a given generated key began ended n v same k g slot = simp (same, k, g, slot) refl

  -- When an admitted request with a key, given or generated, returns a value that counts as true, and
  -- Redis stores it and gives it back for that key, then a later request with the same key returns the
  -- same value, whatever its operation would do, and changes nothing but the two counters of requests
  -- and hits.
  pub execute_again :
      (a : ToolAdapter R) (given : Option String) (generated : Result String String) (key : String)
      (began ended : ℕ) (n : ℕ) (v : V) (r' : R) (given' : Option String)
      (generated' : Result String String) (later over : ℕ) (run : ℕ × Result E V)
      → key_of a.has_redis given generated ≡ ok key
      → keyed a key ≡ true
      → get_result redis a.redis key ≡ none
      → Pool.is_free a.bulkhead ≡ true
      → (Breaker.admit a.circuit_breaker began).1 ≡ true
      → redis.setex a.redis key a.key_ttl v ≡ ok r'
      → redis.get r' key ≡ ok (some v)
      → redis.truthy v ≡ true
      → key_of a.has_redis given' generated' ≡ ok key
      → (a' : ToolAdapter R) × (execute {E = E} redis a given generated began ended (n, ok v)
          ≡ (a', ok v))
        × (execute redis a' given' generated' later over run ≡ (
          record a' {
            metrics = record a'.metrics {
              total_requests = a'.metrics.total_requests + 1;
              idempotency_hits = a'.metrics.idempotency_hits + 1;
            };
          },
          ok v,
        ))
  execute_again a given generated key began ended n v r' given' generated' later over run same k g
        slot admitted set get true_v same' =
      let b' = (Breaker.call {E = E} a.circuit_breaker began ended (ok v)).0 in
      let a' = (settle_request {E = E} redis (holding a began n) key (b', ok v)).0 in
      let found : get_result redis a'.redis key ≡ some v =
        rw (k) (stored redis a.redis r' key a.key_ttl v set get true_v) in
      (
        a',
        execute_miss a given generated key began ended n v same k g slot
            ∙ ap (settle_request redis (holding a began n) key)
                (call_ok a.circuit_breaker began ended v admitted),
        execute_hit a' given' generated' key later over run v same' k found,
      )
