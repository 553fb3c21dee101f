-- ===== src/Resilience/CircuitBreaker/Runs.antt =====
-- The breaker of the tool adapters under any interleaving of calls: each step is a part of `call`
-- that runs without a wait.
use multi_ai_agent.Prelude.{
  ℕ, ◌+◌, ◌≤◌, ◌<◌, ◌≡◌, refl, true, is_some, arith, ltb, ltb→lt, Bool-cases, ◌⊎◌, inl, inr,
}
use multi_ai_agent.Resilience.CircuitBreaker.{
  CircuitState, closed, opened, half_open, CircuitBreaker, CircuitBreakerConfig, init, admit,
  on_success, on_failure, should_open_circuit,
}

-- a call that begins, or is refused; one that returns; one that raises
pub data Step (b : CircuitBreaker) : CircuitBreaker → Type 0 where
  begin : (now : ℕ) → Step b (admit b now).0
  succeed : Step b (on_success b)
  fail : (now : ℕ) → Step b (on_failure b now)

-- the calls settled by a step
abbrev pub settles : {b c : CircuitBreaker} → Step b c → ℕ
settles (begin now) = 0
settles succeed = 1
settles (fail now) = 1

-- `Reach b n c`: from `b` to `c` with `n` calls settled
pub data Reach (b : CircuitBreaker) : ℕ → CircuitBreaker → Type 0 where
  here : Reach b 0 b
  next : {n : ℕ} {c d : CircuitBreaker} → Reach b n c → (st : Step c d) → Reach b (n + settles st) d

pub record Inv (config : CircuitBreakerConfig) (n : ℕ) (b : CircuitBreaker) : Type 0 where
  pub same_config : b.config ≡ config
  pub counted : b.failure_count + b.success_count ≤ n
  pub opened_late : b.state ≡ opened → config.minimum_requests ≤ n
  pub half_open_late : b.state ≡ half_open → config.minimum_requests ≤ n
  pub opened_stamped : b.state ≡ opened → is_some b.last_failure_time ≡ true
  pub half_open_stamped : b.state ≡ half_open → is_some b.last_failure_time ≡ true

Inv-init : (config : CircuitBreakerConfig) → Inv config 0 (init config)
unfolding init
Inv-init config = ground arith

Step-Inv :
    (config : CircuitBreakerConfig) (n : ℕ) {b c : CircuitBreaker} (st : Step b c)
    → Inv config n b
    → Inv config (n + settles st) c
unfolding admit on_success on_failure should_open_circuit
Step-Inv config n (begin now) v = ground arith
Step-Inv config n succeed v = ground arith
Step-Inv config n (fail now) v = ground arith

Reach-Inv :
    (config : CircuitBreakerConfig) {n : ℕ} {b : CircuitBreaker}
    → Reach (init config) n b
    → Inv config n b
Reach-Inv config here = Inv-init config
Reach-Inv config (next {n = n} p st) = Step-Inv config n st (Reach-Inv config p)

state_cases : (s : CircuitState) → (s ≡ closed) ⊎ ((s ≡ opened) ⊎ (s ≡ half_open))
state_cases closed = inl refl
state_cases opened = inr (inl refl)
state_cases half_open = inr (inr refl)

-- Whatever calls interleave on a new breaker: while fewer calls than the minimum of requests are
-- settled it is closed; and otherwise it is closed or has the time of its last failure, so that it
-- never goes half-open for want of one.
pub init-Reach-closed :
    (config : CircuitBreakerConfig) (n : ℕ) (b : CircuitBreaker)
    → Reach (init config) n b
    → ((n < config.minimum_requests) × (b.state ≡ closed))
      ⊎ ((config.minimum_requests ≤ n)
          × ((b.state ≡ closed) ⊎ (is_some b.last_failure_time ≡ true)))
init-Reach-closed config n b p =
    let v = Reach-Inv config p in
    elim (state_cases b.state) [
      | inl c ↦ elim (Bool-cases (ltb n config.minimum_requests)) [
        | inl h ↦ inl (ltb→lt n config.minimum_requests h, c)
        | inr h ↦ inr (ground arith, inl c)
      ]
      | inr (inl c) ↦ inr (v.opened_late c, inr (v.opened_stamped c))
      | inr (inr c) ↦ inr (v.half_open_late c, inr (v.half_open_stamped c))
    ]
