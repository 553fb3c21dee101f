-- ===== src/Adapters/CircuitBreaker/Runs.antt =====
-- The circuit breaker under any interleaving of calls: each step is one part of `call` that runs
-- without a wait, or `reset`.
use multi_ai_agent.Prelude.{ℕ, ◌+◌, ◌-◌, ◌≤◌, ◌<◌, ◌≡◌, true, false, none, is_some, arith, String}
use multi_ai_agent.Adapters.CircuitBreaker.{
  closed, opened, half_open, Breaker, init, admit, settle_ok, settle_err, reset,
}

-- A breaker and the number of calls that wait for their function.
pub record Run : Type 0 where
  pub breaker : Breaker
  pub in_flight : ℕ

pub data Step (r : Run) : Run → Type 0 where
  start :
      (now : ℕ)
      → (admit r.breaker now).1 ≡ true
      → Step r (record { breaker = (admit r.breaker now).0; in_flight = r.in_flight + 1 })
  refuse :
      (now : ℕ)
      → (admit r.breaker now).1 ≡ false
      → Step r (record { breaker = (admit r.breaker now).0; in_flight = r.in_flight })
  finish_ok :
      0 < r.in_flight
      → Step r (record { breaker = settle_ok r.breaker; in_flight = r.in_flight - 1 })
  finish_err :
      (now : ℕ)
      → 0 < r.in_flight
      → Step r (record { breaker = settle_err r.breaker now; in_flight = r.in_flight - 1 })
  restart : Step r (record { breaker = reset r.breaker; in_flight = r.in_flight })

pub data Reach (r : Run) : Run → Type 0 where
  here : Reach r r
  next : {s t : Run} → Reach r s → Step s t → Reach r t

pub record Inv (r : Run) : Type 0 where
  pub threshold_pos : 0 < r.breaker.failure_threshold
  pub accounted :
      r.breaker.total_calls ≡ r.breaker.successful_calls + r.breaker.failed_calls + r.in_flight
  pub closed_below :
      r.breaker.state ≡ closed → r.breaker.failure_count < r.breaker.failure_threshold
  pub opened_tripped :
      r.breaker.state ≡ opened → r.breaker.failure_threshold ≤ r.breaker.failure_count
  pub half_open_tripped :
      r.breaker.state ≡ half_open → r.breaker.failure_threshold ≤ r.breaker.failure_count
  pub stamped : 0 < r.breaker.failure_count → is_some r.breaker.last_failure_time ≡ true
  pub unstamped : r.breaker.failure_count ≡ 0 → r.breaker.last_failure_time ≡ none
  pub openings : r.breaker.circuit_opened_count ≤ r.breaker.failed_calls

abbrev pub idle : Breaker → Run
idle b = record { breaker = b; in_flight = 0 }

Inv-init :
    (name : String) (threshold timeout : ℕ)
    → 0 < threshold
    → Inv (idle (init name threshold timeout))
unfolding init
Inv-init name threshold timeout h = ground arith

pub Step-Inv : {r s : Run} → Step r s → Inv r → Inv s
unfolding admit settle_ok settle_err reset
Step-Inv (start now a) v = ground arith
Step-Inv (refuse now a) v = ground arith
Step-Inv (finish_ok h) v = ground arith
Step-Inv (finish_err now h) v = ground arith
Step-Inv restart v = ground arith

Reach-Inv : {r s : Run} → Reach r s → Inv r → Inv s
Reach-Inv here v = v
Reach-Inv (next p st) v = Step-Inv st (Reach-Inv p v)

-- Whatever calls and resets interleave on a new breaker with a positive threshold, every call is
-- accounted for, the circuit is closed exactly while the failures are below the threshold, a
-- failure time is there exactly while failures are counted, and the circuit opens at most once
-- for each failed call.
pub init-Reach-Inv :
    (name : String) (threshold timeout : ℕ) {r : Run}
    → 0 < threshold
    → Reach (idle (init name threshold timeout)) r
    → Inv r
init-Reach-Inv name threshold timeout h p = Reach-Inv p (Inv-init name threshold timeout h)
