-- ===== src/Adapters/RetryPolicy/Loop.antt =====
-- What `execute` returns, how often it calls the function, and what it sleeps in between.
use multi_ai_agent.Prelude.{
  ℕ, zero, suc, ◌+◌, ◌≤◌, ◌<◌, ◌≡◌, Bool, true, false, Option, none, some, List, [], ◌∷◌, Result,
  ok, err, arith, lt→leb_false, le→leb, ◌⊎◌, inl, inr, refl, Result-cases, Bool-cases, ◌==◌,
}
use multi_ai_agent.Prelude.Int.{ℤ}
use multi_ai_agent.Adapters.RetryPolicy.{
  RetryConfig, Trace, is_retryable, delay_after, execute_from, execute, raised, exhausted,
  RetryError, pass,
}

module _ {E A C : Type 0} (is_instance : E → C → Bool) (c : RetryConfig C) (uniform : ℕ → ℕ → ℤ)
    (func : ℕ → Result E A) where
  -- `n` attempts from `attempt` on all fail with retryable exceptions
  abbrev pub Retried : ℕ → ℕ → Type 0
  Retried zero attempt = Unit
  Retried (suc n) attempt =
      ((e : E) × (func attempt ≡ err e) × (is_retryable is_instance c uniform func e ≡ true))
      × Retried n (suc attempt)

  -- the delays after `n` attempts from `attempt` on
  abbrev pub delays : ℕ → ℕ → List ℕ
  delays zero attempt = []
  delays (suc n) attempt = delay_after is_instance c uniform func attempt ∷ delays n (suc attempt)

  -- what attempt `k` does, however the loop goes on, if it ends the loop with `r`
  abbrev Ends : ℕ → Result (RetryError E) A → Type 0
  Ends k r =
      (later : E → Trace E A)
      → pass is_instance c uniform func (func k) k later
        ≡ record { result = r; slept = []; called = 1 }

  execute_from-Ends :
      (n attempt k left : ℕ) (last : Option E) (r : Result (RetryError E) A)
      → Retried n attempt
      → k ≡ attempt + n
      → k ≤ c.max_attempts
      → n < left
      → Ends k r
      → execute_from is_instance c uniform func left attempt last
        ≡ record { result = r; slept = delays n attempt; called = n + 1 }
  unfolding execute_from
  execute_from-Ends n attempt k zero last r h e le lt f = absurd (omega arith)
  execute_from-Ends zero attempt k (suc left) last r h e le lt f =
      let same : k ≡ attempt = omega arith in
      rw (← same) (f (λ e'. execute_from is_instance c uniform func left (suc k) (some e')))
  execute_from-Ends (suc n) attempt k (suc left) last r ((x, p, q), h) e le lt f =
      rw (p, pass, q, lt→leb_false c.max_attempts attempt (omega arith))
        (rw (execute_from-Ends n (suc attempt) k left (some x) r h (omega arith) le (omega arith) f)
          (ground arith))

  -- The first attempt that succeeds, after `n` attempts that failed with retryable exceptions and
  -- among the attempts allowed, gives the result; there are no more calls, and the function is
  -- called again after the delay of each failed attempt.
  execute-ok :
      (n : ℕ) (a : A)
      → Retried n 1
      → suc n ≤ c.max_attempts
      → func (suc n) ≡ ok a
      → execute is_instance c uniform func
        ≡ record { result = ok a; slept = delays n 1; called = n + 1 }
  unfolding execute
  execute-ok n a h le f =
      execute_from-Ends n 1 (suc n) c.max_attempts none (ok a) h (omega arith) le le (λ later. rw f)

  -- An exception that is not retryable ends the loop at once and is raised as it is.
  execute-raised :
      (n : ℕ) (e : E)
      → Retried n 1
      → suc n ≤ c.max_attempts
      → func (suc n) ≡ err e
      → is_retryable is_instance c uniform func e ≡ false
      → execute is_instance c uniform func
        ≡ record { result = err (raised e); slept = delays n 1; called = n + 1 }
  unfolding execute
  execute-raised n e h le f q =
      execute_from-Ends n 1 (suc n) c.max_attempts none (err (raised e)) h (omega arith) le le
        (λ later. rw (f, q))

  -- If all the attempts allowed fail with retryable exceptions, the loop is exhausted with the last
  -- of them as the cause, after exactly that many calls and a delay between any two of them.
  execute-exhausted :
      (n : ℕ) (e : E)
      → Retried n 1
      → c.max_attempts ≡ suc n
      → func (suc n) ≡ err e
      → is_retryable is_instance c uniform func e ≡ true
      → execute is_instance c uniform func
        ≡ record { result = err (exhausted (some e)); slept = delays n 1; called = n + 1 }
  unfolding execute
  execute-exhausted n e h le f q =
      execute_from-Ends n 1 (suc n) c.max_attempts none (err (exhausted (some e))) h (omega arith)
        (omega arith) (omega arith)
        (λ later. rw (f, pass, q, le→leb c.max_attempts (suc n) (omega arith)))

  -- How attempt `k` ends the loop with the result `r`: it succeeds, it fails with an exception that
  -- is not retryable, or it is the last attempt allowed and fails with one that is.
  abbrev pub Final : ℕ → Result (RetryError E) A → Type 0
  Final k r =
      ((a : A) × (func k ≡ ok a) × (r ≡ ok a))
      ⊎ ((e : E) × (func k ≡ err e)
          × (is_retryable is_instance c uniform func e ≡ false)
          × (r ≡ err (raised e)))
      ⊎ ((e : E) × (func k ≡ err e)
          × (is_retryable is_instance c uniform func e ≡ true)
          × (k ≡ c.max_attempts)
          × (r ≡ err (exhausted (some e))))

  -- where the loop ends that has `left` attempts from `attempt` on
  record Ending (left attempt : ℕ) : Type 0 where
    retries : ℕ
    last : ℕ
    result : Result (RetryError E) A
    retried : Retried retries attempt
    last_eq : last ≡ attempt + retries
    in_range : retries < left
    final : Final last result

  later_Ending :
      (left attempt : ℕ) (e : E)
      → func attempt ≡ err e
      → is_retryable is_instance c uniform func e ≡ true
      → Ending left (suc attempt)
      → Ending (suc left) attempt
  later_Ending left attempt e p q w = record {
    retries = suc w.retries;
    last = w.last;
    result = w.result;
    retried = ((e, p, q), w.retried);
    last_eq = omega (arith, w.last_eq);
    in_range = omega (arith, w.in_range);
    final = w.final;
  }

  now_Ending :
      (left attempt : ℕ) (r : Result (RetryError E) A) → Final attempt r → Ending (suc left) attempt
  now_Ending left attempt r f = record {
    retries = 0;
    last = attempt;
    result = r;
    retried = tt;
    last_eq = omega arith;
    in_range = omega arith;
    final = f;
  }

  find_Ending :
      (left attempt : ℕ) → 0 < left → attempt + left ≡ suc c.max_attempts → Ending left attempt
  find_Ending zero attempt h e = absurd (omega arith)
  find_Ending (suc left) attempt h e = elim (Result-cases (func attempt)) [
    | inl (a, p) ↦ now_Ending left attempt (ok a) (inl (a, p, refl))
    | inr (x, p) ↦ elim (Bool-cases (is_retryable is_instance c uniform func x)) [
      | inr q ↦ now_Ending left attempt (err (raised x)) (inr (inl (x, p, q, refl)))
      | inl q ↦ elim (Bool-cases (0 == left)) [
        | inl z ↦
            now_Ending left attempt (err (exhausted (some x)))
              (inr (inr (x, p, q, ground arith, refl)))
        | inr z ↦
            later_Ending left attempt x p q
              (find_Ending left (suc attempt) (ground arith) (omega arith))
      ]
    ]
  ]

  execute-Final :
      (n : ℕ) (r : Result (RetryError E) A)
      → Retried n 1
      → n < c.max_attempts
      → Final (suc n) r
      → execute is_instance c uniform func
        ≡ record { result = r; slept = delays n 1; called = n + 1 }
  execute-Final n r h lt (inl (a, p, q)) = rw q (execute-ok n a h lt p)
  execute-Final n r h lt (inr (inl (e, p, q, z))) = rw z (execute-raised n e h lt p q)
  execute-Final n r h lt (inr (inr (e, p, q, m, z))) =
      rw z (execute-exhausted n e h (omega arith) p q)

  -- With a positive number of attempts, `execute` ends with one of the attempts allowed, after `n`
  -- attempts that all failed with retryable exceptions: that attempt succeeds and its value is
  -- returned, or its exception is not retryable and is raised, or it is the last attempt, its
  -- exception is retryable and `RetryExhaustedError` has it as the cause. The function is called
  -- once for each attempt, and the delays slept are those of the `n` failed attempts, in order.
  pub execute_outcome :
      0 < c.max_attempts
      → (n : ℕ) × (r : Result (RetryError E) A) × Retried n 1
        × (n < c.max_attempts)
        × Final (suc n) r
        × (execute is_instance c uniform func
            ≡ record { result = r; slept = delays n 1; called = n + 1 })
  execute_outcome h =
      let w = find_Ending c.max_attempts 1 h (omega arith) in
      let f : Final (suc w.retries) w.result =
        let e : suc w.retries ≡ w.last = omega (arith, w.last_eq) in rw e w.final in
      (
        w.retries,
        w.result,
        w.retried,
        w.in_range,
        f,
        execute-Final w.retries w.result w.retried w.in_range f,
      )
