-- ===== src/Resilience/CircuitBreaker/Recovery.antt =====
-- How the breaker of the tool adapters closes again.
use multi_ai_agent.Prelude.{
  ℕ, suc, ◌+◌, ◌≤◌, ◌<◌, ◌≡◌, refl, true, false, some, leb, leb→le, le→leb, lt→leb_false,
  if◌then◌else◌, Result, ok, err, arith, inl, inr, Bool-cases, length, List, [], ◌∷◌, ◌⊎◌, String,
}
use multi_ai_agent.Resilience.CircuitBreaker.{
  CircuitState, closed, opened, half_open, CircuitBreaker, breaker_open, admit, on_success, call,
}

-- While the circuit is not open, a call that succeeds only counts.
call_closed :
    {A : Type 0} (b : CircuitBreaker) (now : ℕ) (a : A)
    → b.state ≡ closed
    → (call {E = String} b now now (ok a)).0 ≡ record b { success_count = b.success_count + 1 }
unfolding call admit on_success
call_closed b now a h = simp (h) refl

call_half_open :
    {A : Type 0} (b : CircuitBreaker) (now : ℕ) (a : A)
    → b.state ≡ half_open
    → (call {E = String} b now now (ok a)).0 ≡ (
        if leb b.config.minimum_requests (b.success_count + 1)
        then record b { success_count = b.success_count + 1; state = closed; failure_count = 0 }
        else record b { success_count = b.success_count + 1 })
unfolding call admit on_success
call_half_open b now a h = simp (h) refl

-- the breaker is in the state with these failures counted
abbrev pub Stands : CircuitState → ℕ → CircuitBreaker → Type 0
Stands state failures b = (b.state ≡ state) × (b.failure_count ≡ failures)

-- half-open with the old failures below the minimum of successes, and closed with none from there on
abbrev pub Recovered : ℕ → ℕ → ℕ → CircuitBreaker → Type 0
Recovered minimum failures total b =
    ((total < minimum) × Stands half_open failures b) ⊎ ((minimum ≤ total) × Stands closed 0 b)

module _ {A : Type 0} where
  -- calls that all succeed, one after the other, each with its time
  abbrev pub succeed_all : CircuitBreaker → List (ℕ × A) → CircuitBreaker
  succeed_all b [] = b
  succeed_all b ((now, a) ∷ calls) = succeed_all (call {E = String} b now now (ok a)).0 calls

  succeed_all-closed :
      (b : CircuitBreaker) (calls : List (ℕ × A)) (failures : ℕ)
      → Stands closed failures b
      → Stands closed failures (succeed_all b calls)
  succeed_all-closed b [] failures h = h
  succeed_all-closed b ((now, a) ∷ calls) failures h =
      rw (succeed_all, call_closed b now a h.0)
        (succeed_all-closed (record b { success_count = b.success_count + 1 }) calls failures h)

  -- the success that closes the circuit
  last_success :
      (b : CircuitBreaker) (now : ℕ) (a : A) (calls : List (ℕ × A))
      → b.state ≡ half_open
      → leb b.config.minimum_requests (b.success_count + 1) ≡ true
      → Recovered b.config.minimum_requests b.failure_count
          (b.success_count + suc (length calls))
          (succeed_all b ((now, a) ∷ calls))
  last_success b now a calls h p = inr (
    omega (arith, leb→le b.config.minimum_requests (b.success_count + 1) p),
    rw (succeed_all, call_half_open b now a h, p)
        (succeed_all-closed
          (record b { success_count = b.success_count + 1; state = closed; failure_count = 0 })
          calls 0 (refl, refl)),
  )

  succeed_all-half_open :
      (b : CircuitBreaker) (now : ℕ) (a : A) (calls : List (ℕ × A))
      → b.state ≡ half_open
      → Recovered b.config.minimum_requests b.failure_count
          (b.success_count + suc (length calls))
          (succeed_all b ((now, a) ∷ calls))
  succeed_all-half_open b now a [] h =
      elim (Bool-cases (leb b.config.minimum_requests (b.success_count + 1))) [
        | inl p ↦ last_success b now a [] h p
        | inr p ↦ inl (ground arith, rw (succeed_all, call_half_open b now a h, p) (h, refl))
      ]
  succeed_all-half_open b now a ((later, c) ∷ calls) h =
      let b' = record b { success_count = b.success_count + 1 } in
      let more = succeed_all-half_open b' later c calls h in
      let count : b.success_count + suc (suc (length calls))
          ≡ b.success_count + 1 + suc (length calls) =
        omega arith in
      elim (Bool-cases (leb b.config.minimum_requests (b.success_count + 1))) [
        | inl p ↦ last_success b now a ((later, c) ∷ calls) h p
        | inr p ↦ rw (count, succeed_all, call_half_open b now a h, p) more
      ]

  -- When the circuit is open and the recovery timeout has passed since its last failure, a run of
  -- successful calls leaves it half-open with its failures counted while there are fewer than the
  -- minimum of requests, and closed with no failures counted from the minimum on.
  pub recovery :
      (b : CircuitBreaker) (t now : ℕ) (a : A) (calls : List (ℕ × A))
      → b.state ≡ opened
      → b.last_failure_time ≡ some t
      → t + b.config.recovery_timeout ≤ now
      → Recovered b.config.minimum_requests b.failure_count
          (length ((now, a) ∷ calls))
          (succeed_all b ((now, a) ∷ calls))
  unfolding call admit
  recovery b t now a calls h stamp late =
      let probe = record b { state = half_open; success_count = 0 } in
      let due : leb (t + b.config.recovery_timeout) now ≡ true =
        le→leb (t + b.config.recovery_timeout) now late in
      let start : (call {E = String} b now now (ok a)).0
          ≡ (call {E = String} probe now now (ok a)).0 =
        simp (h, stamp, due) refl in
      let none_yet : 0 + suc (length calls) ≡ suc (length calls) = omega arith in
      rw (succeed_all, start) (rw (none_yet) at (succeed_all-half_open probe now a calls refl))

  -- While the circuit is open and the recovery timeout has not passed, a call is refused, whatever
  -- its function would do, and changes nothing.
  pub call_refused :
      (b : CircuitBreaker) (t began ended : ℕ) (r : Result String A)
      → b.state ≡ opened
      → b.last_failure_time ≡ some t
      → began < t + b.config.recovery_timeout
      → call b began ended r ≡ (b, err breaker_open)
  unfolding call admit
  call_refused b t began ended r h stamp early =
      let soon : leb (t + b.config.recovery_timeout) began ≡ false =
        lt→leb_false (t + b.config.recovery_timeout) began early in
      simp (h, stamp, soon) refl
