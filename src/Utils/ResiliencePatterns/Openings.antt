-- ===== src/Utils/ResiliencePatterns/Openings.antt =====
-- How often the circuit of libs/utils/resilience_patterns.py opens.
use multi_ai_agent.Prelude.{ℕ, ◌+◌, ◌*◌, ◌≤◌, ◌≡◌, refl, arith, if◌then◌else◌}
use multi_ai_agent.Utils.ResiliencePatterns.{
  CircuitBreaker, circuit_breaker, admit, settle_ok, settle_err,
}

-- one more if the circuit was closed and is open
abbrev pub opening : CircuitBreaker → CircuitBreaker → ℕ
opening b b' = if b.circuit_open then 0 else if b'.circuit_open then 1 else 0

-- A breaker after the parts of any calls in any order, with the failures and the openings so far.
pub data Runs (threshold timeout : ℕ) : ℕ → ℕ → CircuitBreaker → Type 0 where
  start : Runs threshold timeout 0 0 (circuit_breaker threshold timeout)
  begins :
      {f o : ℕ} {b : CircuitBreaker} (now : ℕ)
      → Runs threshold timeout f o b
      → Runs threshold timeout f o (admit now b).0
  returns :
      {f o : ℕ} {b : CircuitBreaker}
      → Runs threshold timeout f o b
      → Runs threshold timeout f o (settle_ok b)
  raises :
      {f o : ℕ} {b : CircuitBreaker} (now : ℕ)
      → Runs threshold timeout f o b
      → Runs threshold timeout (f + 1) (o + opening b (settle_err now b)) (settle_err now b)

record Inv (threshold f o : ℕ) (b : CircuitBreaker) : Type 0 where
  same_threshold : b.failure_threshold ≡ threshold
  paid : threshold * o + (if b.circuit_open then 0 else b.failure_count) ≤ f

Runs-Inv :
    {threshold timeout f o : ℕ} {b : CircuitBreaker}
    → Runs threshold timeout f o b
    → Inv threshold f o b
unfolding admit settle_ok settle_err
Runs-Inv start = record { same_threshold = refl; paid = omega arith }
Runs-Inv (begins {b} now r) =
    let h = Runs-Inv r in
    record { same_threshold = ground (arith, h.same_threshold); paid = ground (arith, h.paid) }
Runs-Inv (returns {b} r) =
    let h = Runs-Inv r in
    record { same_threshold = h.same_threshold; paid = ground (arith, h.paid) }
Runs-Inv (raises {b} now r) =
    let h = Runs-Inv r in
    record { same_threshold = h.same_threshold; paid = ground (arith, h.same_threshold, h.paid) }

-- The circuit opens at most once for each threshold of failures, whatever calls overlap.
pub openings_bound :
    {threshold timeout f o : ℕ} {b : CircuitBreaker}
    → Runs threshold timeout f o b
    → threshold * o ≤ f
openings_bound r = let h = Runs-Inv r in omega (arith, h.paid)
