-- ===== src/Adapters/Saga/Retry.antt =====
-- What the retry loop of a step does.
use native.Mathlib.Nat.{zero-add, add-zero}
use multi_ai_agent.Prelude.{
  ℕ, zero, suc, ◌+◌, ◌≤◌, ◌<◌, ◌≡◌, refl, Option, none, some, List, [], ◌∷◌, String, ok, err, arith,
  ◌⊎◌, inl, inr, Result-cases, lt→ltb, le→ltb_false,
}
use multi_ai_agent.Adapters.Saga.{
  SagaStep, Retried, Effect, called, slept, backoff, retry_from, execute_step_with_retry,
}

module _ {R : Type 0} where
  -- the log of `n` failed attempts from `attempt` on, each with the pause after it
  abbrev pub retry_log : SagaStep R → ℕ → ℕ → List Effect → List Effect
  retry_log step zero attempt rest = rest
  retry_log step (suc n) attempt rest =
      called step.step_id ∷ slept (backoff attempt) ∷ retry_log step n (suc attempt) rest

  -- the attempts from `attempt` on, `n` of them, raise
  abbrev pub Raises : SagaStep R → ℕ → ℕ → Type 0
  Raises step zero attempt = Unit
  Raises step (suc n) attempt =
      ((e : String) × (step.execute_func attempt ≡ err e)) × Raises step n (suc attempt)

  abbrev pub counted : SagaStep R → ℕ → SagaStep R
  counted step n = record step { retry_attempts = step.retry_attempts + n }

  -- How attempt `k` ends the loop: it returns a result, or it is the last one and raises.
  abbrev pub Final : SagaStep R → ℕ → Retried R → Type 0
  Final step n run =
      ((r : R) × (step.execute_func n ≡ ok r)
        × (run ≡ record {
          step = counted step n;
          outcome = ok r;
          log = retry_log step n 0 (called step.step_id ∷ []);
        }))
      ⊎ ((e : String) × (step.execute_func n ≡ err e)
          × (n ≡ step.max_retries)
          × (run ≡ record {
            step = counted step (suc n);
            outcome = err e;
            log = retry_log step n 0 (called step.step_id ∷ []);
          }))

  retry_from-ok :
      (n attempt k left : ℕ) (last : Option String) (step : SagaStep R) (r : R)
      → Raises step n attempt
      → k ≡ attempt + n
      → k ≤ step.max_retries
      → n < left
      → step.execute_func k ≡ ok r
      → retry_from left attempt last step ≡ record {
        step = counted step n;
        outcome = ok r;
        log = retry_log step n attempt (called step.step_id ∷ []);
      }
  unfolding retry_from
  retry_from-ok n attempt k zero last step r h e le lt f = absurd (omega arith)
  retry_from-ok zero attempt k (suc left) last step r h e le lt f =
      let same : k ≡ attempt = omega arith in rw (← same, f) (ground arith)
  retry_from-ok (suc n) attempt k (suc left) last step r ((x, p), h) e le lt f =
      rw (p, lt→ltb attempt step.max_retries (omega arith))
        (ground (
          arith,
          retry_from-ok n (suc attempt) k left (some x) (counted step 1) r h (omega arith) le
              (omega arith) f,
        ))

  retry_from-err :
      (n attempt k left : ℕ) (last : Option String) (step : SagaStep R) (x : String)
      → Raises step n attempt
      → k ≡ attempt + n
      → k ≡ step.max_retries
      → left ≡ suc n
      → step.execute_func k ≡ err x
      → retry_from left attempt last step ≡ record {
        step = counted step (suc n);
        outcome = err x;
        log = retry_log step n attempt (called step.step_id ∷ []);
      }
  unfolding retry_from
  retry_from-err n attempt k zero last step x h e le lt f = absurd (omega arith)
  retry_from-err zero attempt k (suc (suc left)) last step x h e le lt f = absurd (omega arith)
  retry_from-err zero attempt k (suc zero) last step x h e le lt f =
      let same : k ≡ attempt = omega arith in
      rw (← same, f, le→ltb_false k step.max_retries (omega arith)) (ground arith)
  retry_from-err (suc n) attempt k (suc left) last step x ((y, p), h) e le lt f =
      rw (p, lt→ltb attempt step.max_retries (omega arith))
        (ground (
          arith,
          retry_from-err n (suc attempt) k left (some y) (counted step 1) x h (omega arith) le
              (omega arith) f,
        ))

  -- the number of attempts from `attempt` on that raise before the loop ends
  later_end :
      (left attempt n : ℕ) (step : SagaStep R)
      → suc attempt + n ≡ attempt + suc n
      → ((r : R) × (step.execute_func (suc attempt + n) ≡ ok r))
        ⊎ ((e : String) × (step.execute_func (suc attempt + n) ≡ err e) × (n ≡ left))
      → ((r : R) × (step.execute_func (attempt + suc n) ≡ ok r))
        ⊎ ((e : String) × (step.execute_func (attempt + suc n) ≡ err e) × (suc n ≡ suc left))
  later_end left attempt n step same (inl (r, p)) = inl (r, rw (← same) p)
  later_end left attempt n step same (inr (e, p, q)) = inr (e, rw (← same) p, rw q)

  find_end :
      (left attempt : ℕ) (step : SagaStep R)
      → attempt + left ≡ step.max_retries
      → (n : ℕ) × Raises step n attempt
        × (n ≤ left)
        × (((r : R) × (step.execute_func (attempt + n) ≡ ok r))
            ⊎ ((e : String) × (step.execute_func (attempt + n) ≡ err e) × (n ≡ left)))
  find_end zero attempt step h = elim (Result-cases (step.execute_func (attempt + 0))) [
    | inl (r, p) ↦ (0, tt, omega arith, inl (r, p))
    | inr (e, p) ↦ (0, tt, omega arith, inr (e, p, refl))
  ]
  find_end (suc left) attempt step h = elim (Result-cases (step.execute_func attempt)) [
    | inl (r, p) ↦ (0, tt, omega arith, inl (r, rw add-zero p))
    | inr (e, p) ↦
        (let (n, raises, le, end) = find_end left (suc attempt) step (omega arith) in
          let same : suc attempt + n ≡ attempt + suc n = omega arith in
          (suc n, ((e, p), raises), omega arith, later_end left attempt n step same end))
  ]

  end-Final :
      (step : SagaStep R) (n : ℕ)
      → Raises step n 0
      → n ≤ step.max_retries
      → ((r : R) × (step.execute_func (0 + n) ≡ ok r))
        ⊎ ((e : String) × (step.execute_func (0 + n) ≡ err e) × (n ≡ step.max_retries))
      → Final step n (execute_step_with_retry step)
  unfolding execute_step_with_retry
  end-Final step n raises le (inl (r, p)) =
      let q : step.execute_func n ≡ ok r = rw zero-add at p in
      inl (
        r,
        q,
        retry_from-ok n 0 n (step.max_retries + 1) none step r raises (omega arith) le (omega arith)
            q,
      )
  end-Final step n raises le (inr (e, p, m)) =
      let q : step.execute_func n ≡ err e = rw zero-add at p in
      inr (
        e,
        q,
        m,
        retry_from-err n 0 n (step.max_retries + 1) none step e raises (omega arith) m (omega arith)
            q,
      )

  -- A step's function is called until it returns, and `max_retries + 1` times at most: some number
  -- `n` of calls raise, at most `max_retries`; then the next call returns and its result is the
  -- outcome, or it raises too, no retry is left, and its exception is raised. Each failed attempt
  -- is counted on the step and followed, but for the last, by its backoff.
  pub execute_step_with_retry_outcome :
      (step : SagaStep R)
      → (n : ℕ) × Raises step n 0
        × (n ≤ step.max_retries)
        × Final step n (execute_step_with_retry step)
  unfolding execute_step_with_retry
  execute_step_with_retry_outcome step =
      let (n, raises, le, end) = find_end step.max_retries 0 step (omega arith) in
      (n, raises, le, end-Final step n raises le end)
