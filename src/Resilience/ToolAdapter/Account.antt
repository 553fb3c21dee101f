-- ===== src/Resilience/ToolAdapter/Account.antt =====
-- The metrics of a tool adapter count each request once, and its slot is given back.
use multi_ai_agent.Prelude.{
  ℕ, ◌+◌, ◌≤◌, ◌≡◌, refl, Bool, true, false, Option, none, some, String, arith, Result, ok, err,
  Bool-cases, inl, inr,
}
use multi_ai_agent.Resilience.CircuitBreaker as Breaker
use multi_ai_agent.Resilience.CircuitBreaker.{CircuitBreaker, CallError}
use multi_ai_agent.Resilience.BulkheadPool.{BulkheadPool, acquire, release, wake_up_next, is_free}
use multi_ai_agent.Resilience.ToolAdapter.{
  Redis, Metrics, ToolAdapter, key_of, with_key, is_open, count_end, settle_request, count_attempts,
  cached, proceed, execute,
}

abbrev pub counted : Metrics → ℕ
counted m = m.successful_requests + m.failed_requests + m.bulkhead_rejections + m.idempotency_hits

-- `n` requests are counted in the total only
pub record Accounts {R : Type 0} (n : ℕ) (a : ToolAdapter R) : Type 0 where
  pub each_once : a.metrics.total_requests ≡ counted a.metrics + n
  pub opens : a.metrics.circuit_breaker_opens ≤ a.metrics.failed_requests
  pub no_queue : a.bulkhead.waiting + a.bulkhead.woken ≡ 0

-- the same free and taken slots
pub record SameSlots (p q : BulkheadPool) : Type 0 where
  pub free : q.semaphore ≡ p.semaphore
  pub taken : q.current_usage ≡ p.current_usage
  pub queue : q.waiting ≡ p.waiting
  pub awake : q.woken ≡ p.woken

same_slots : (p : BulkheadPool) → SameSlots p p
same_slots p = record { free = refl; taken = refl; queue = refl; awake = refl }

release-acquire : (p : BulkheadPool) → is_free p ≡ true → SameSlots p (release (acquire p))
unfolding acquire release wake_up_next
release-acquire p h = ground arith

-- the metrics with a total of `total`, of which `lost` and one more or `lost` are counted nowhere else
abbrev Pending : ℕ → ℕ → Metrics → Type 0
Pending lost total m =
    (m.total_requests ≡ total)
    × (total ≡ counted m + lost + 1)
    × (m.circuit_breaker_opens ≤ m.failed_requests)

abbrev Balanced : ℕ → ℕ → Metrics → Type 0
Balanced lost total m =
    (m.total_requests ≡ total)
    × (total ≡ counted m + lost)
    × (m.circuit_breaker_opens ≤ m.failed_requests)

-- a request ends with its account balanced and the slots as they were
abbrev pub Ends : {R : Type 0} → ℕ → ToolAdapter R → ToolAdapter R → Type 0
Ends lost a a' =
    Balanced lost a.metrics.total_requests a'.metrics × SameSlots a.bulkhead a'.bulkhead

count_attempts-Pending :
    (admitted : Bool) (n lost total : ℕ) (m : Metrics)
    → Pending lost total m
    → Pending lost total (count_attempts admitted n m)
count_attempts-Pending true n lost total m h = h
count_attempts-Pending false n lost total m h = h

count_end-Balanced :
    (opened : Bool) (lost total : ℕ) (m : Metrics)
    → Pending lost total m
    → Balanced lost total (count_end opened m)
count_end-Balanced true lost total m h = (h.0, omega arith, omega arith)
count_end-Balanced false lost total m h = (h.0, omega arith, omega arith)

-- the requests that are counted in the total alone
abbrev pub lost_with : Result String String → ℕ
lost_with (ok key) = 0
lost_with (err e) = 1

module _ {E V R : Type 0} (redis : Redis R V) where
  -- the metrics after the call of the breaker, and the slot given back
  settle_request-Balanced :
      (a : ToolAdapter R) (key : String) (r : CircuitBreaker × Result (CallError E) V)
      (lost total : ℕ)
      → Pending lost total a.metrics
      → Balanced lost total (settle_request redis a key r).0.metrics
        × ((settle_request redis a key r).0.bulkhead ≡ release a.bulkhead)
  settle_request-Balanced a key (b, ok v) lost total h = ((h.0, omega arith, omega arith), refl)
  settle_request-Balanced a key (b, err e) lost total h =
      (count_end-Balanced (is_open b.state) lost total a.metrics h, refl)

  proceed-Ends :
      (o : Option V) (a : ToolAdapter R) (key : String) (began ended : ℕ) (run : ℕ × Result E V)
      (lost : ℕ)
      → Pending lost a.metrics.total_requests a.metrics
      → Ends lost a (proceed redis o a key began ended run).0
  proceed-Ends (some v) a key began ended run lost h =
      ((refl, omega arith, omega arith), same_slots a.bulkhead)
  proceed-Ends none a key began ended run lost h = elim (Bool-cases (is_free a.bulkhead)) [
    | inl p ↦
        (let admitted = (Breaker.admit a.circuit_breaker began).1 in
          let a' = record a {
            bulkhead = acquire a.bulkhead;
            metrics = count_attempts admitted run.0 a.metrics;
          } in
          let (m, back) =
            settle_request-Balanced a' key (Breaker.call a.circuit_breaker began ended run.1) lost
              a.metrics.total_requests
              (count_attempts-Pending admitted run.0 lost a.metrics.total_requests a.metrics h) in
          rw (proceed, p) (m, rw (back) (release-acquire a.bulkhead p)))
    | inr p ↦ rw (proceed, p) ((refl, omega arith, omega arith), same_slots a.bulkhead)
  ]

  with_key-Accounts :
      (a : ToolAdapter R) (key : Result String String) (began ended : ℕ) (run : ℕ × Result E V)
      (n : ℕ)
      → Pending n a.metrics.total_requests a.metrics
      → a.bulkhead.waiting + a.bulkhead.woken ≡ 0
      → let a' = (with_key redis a key began ended run).0 in
        Accounts (n + lost_with key) a'
        × SameSlots a.bulkhead a'.bulkhead
        × (a'.metrics.total_requests ≡ a.metrics.total_requests)
  with_key-Accounts a (ok key) began ended run n h queue =
      let (m, slots) = proceed-Ends (cached redis a key) a key began ended run n h in
      (
        record {
          each_once = omega (arith, m.0, m.1);
          opens = m.2;
          no_queue = omega (arith, slots.queue, slots.awake);
        },
        slots,
        m.0,
      )
  with_key-Accounts a (err e) began ended run n h queue = (
    record { each_once = omega (arith, h.1); opens = h.2; no_queue = queue },
    same_slots a.bulkhead,
    refl,
  )

  -- A request that no other one interrupts and nobody cancels, on an adapter whose account is right and
  -- where no task waits for a slot, is counted in the total and in exactly one of the successes, the
  -- failures, the rejections and the idempotency hits; only when the generation of its key raises, it is
  -- counted in the total alone. The openings of the circuit are at most the failures, and the slots are
  -- free and taken as before, however the request ends.
  pub execute-Accounts :
      (a : ToolAdapter R) (given : Option String) (generated : Result String String)
      (began ended : ℕ) (run : ℕ × Result E V) (n : ℕ)
      → Accounts n a
      → let a' = (execute redis a given generated began ended run).0 in
        Accounts (n + lost_with (key_of a.has_redis given generated)) a'
        × SameSlots a.bulkhead a'.bulkhead
        × (a'.metrics.total_requests ≡ a.metrics.total_requests + 1)
  unfolding execute
  execute-Accounts a given generated began ended run n v =
      let a' = record a {
        metrics = record a.metrics { total_requests = a.metrics.total_requests + 1 };
      } in
      with_key-Accounts a' (key_of a.has_redis given generated) began ended run n
        (refl, omega (arith, v.each_once), v.opens) v.no_queue
