-- ===== src/Utils/ResiliencePatterns/Retries.antt =====
-- The retries of libs/utils/resilience_patterns.py.
use multi_ai_agent.Prelude.{
  ℕ, zero, suc, ◌+◌, ◌≤◌, ◌≡◌, ◌⊎◌, refl, ap, subst, sym, ◌∙◌, Bool, true, false, Option, none,
  some, List, [], ◌∷◌, arith, inl, inr, Bool-cases, Result, ok, err, Result-cases, ◌==◌,
}
use multi_ai_agent.Utils.ResiliencePatterns.{
  ResilienceConfig, Raised, raised, delay_after, with_timeout, retry_from,
  retry_with_exponential_backoff,
}

module _ {E A : Type 0} (caught : E → Bool) (timed_out : E) (config : ResilienceConfig)
    (fraction : ℕ → ℕ) (func : ℕ → ℕ × Result E A) where
  abbrev pub outcome : ℕ → Result E A
  outcome k = with_timeout timed_out config.timeout (func k)

  -- `n` attempts from `attempt` on fail with exceptions that are caught
  abbrev pub Failed : ℕ → ℕ → Type 0
  Failed zero attempt = Unit
  Failed (suc n) attempt =
      ((e : E) × (outcome attempt ≡ err e) × (caught e ≡ true)) × Failed n (suc attempt)

  abbrev pub delays : ℕ → ℕ → List ℕ
  delays zero attempt = []
  delays (suc n) attempt = delay_after config fraction attempt ∷ delays n (suc attempt)

  -- what a last attempt makes of its outcome
  abbrev pub final : Result E A → Result (Raised E) A
  final (ok a) = ok a
  final (err e) = err (raised e)

  -- a value, or an exception that is not caught
  abbrev pub Settles : Result E A → Type 0
  Settles (ok a) = Unit
  Settles (err e) = caught e ≡ false

  -- The retries from an attempt on end after `n` more of them, of those left.
  abbrev Ending : ℕ → ℕ → List ℕ × Result (Raised E) A → Type 0
  Ending left attempt result =
      (n : ℕ) × (n ≤ left)
      × Failed n attempt
      × (result ≡ (delays n attempt, final (outcome (attempt + n))))
      × ((n ≡ left) ⊎ Settles (outcome (attempt + n)))

  ends_here :
      (left attempt : ℕ) (result : List ℕ × Result (Raised E) A)
      → result ≡ ([], final (outcome attempt))
      → (0 ≡ left) ⊎ Settles (outcome attempt)
      → Ending left attempt result
  ends_here left attempt result e h =
      let same : attempt ≡ attempt + 0 = omega arith in
      (
        0,
        omega arith,
        tt,
        e ∙ ap (λ k. ([], final (outcome k))) same,
        subst (λ k. (0 ≡ left) ⊎ Settles (outcome k)) same h,
      )

  goes_on :
      (left attempt : ℕ) (x : E) (result : List ℕ × Result (Raised E) A)
      → outcome attempt ≡ err x
      → caught x ≡ true
      → Ending left (suc attempt) result
      → Ending (suc left) attempt (delay_after config fraction attempt ∷ result.0, result.1)
  goes_on left attempt x result p q (n, le, failed, e, h) =
      let same : suc attempt + n ≡ attempt + suc n = omega arith in
      (
        suc n,
        omega arith,
        ((x, p, q), failed),
        ap (λ (r : List ℕ × Result (Raised E) A). (delay_after config fraction attempt ∷ r.0, r.1))
              e
            ∙ ap (λ k. (delays (suc n) attempt, final (outcome k))) same,
        elim h [
          | inl e' ↦ inl (omega arith)
          | inr s ↦ inr (subst (λ k. Settles (outcome k)) same s)
        ],
      )

  retry_from_again :
      (left attempt : ℕ) (last : Option E) (x : E)
      → outcome attempt ≡ err x
      → caught x ≡ true
      → (attempt == config.max_retries) ≡ false
      → retry_from caught timed_out config fraction func (suc left) attempt last ≡ (
        delay_after config fraction attempt
            ∷ (retry_from caught timed_out config fraction func left (suc attempt) (some x)).0,
        (retry_from caught timed_out config fraction func left (suc attempt) (some x)).1,
      )
  unfolding retry_from
  retry_from_again left attempt last x p q before = rw (retry_from, p, q, before) refl

  retry_from_end :
      (left attempt : ℕ) (last : Option E)
      → attempt + left ≡ config.max_retries
      → Ending left attempt
          (retry_from caught timed_out config fraction func (suc left) attempt last)
  unfolding retry_from
  retry_from_end zero attempt last e = elim (Result-cases (outcome attempt)) [
    | inl (a, p) ↦ ends_here zero attempt _ (rw (retry_from, p) refl) (inl refl)
    | inr (x, p) ↦
        let at_end : (attempt == config.max_retries) ≡ true = ground arith in
        ends_here zero attempt _
          (elim (Bool-cases (caught x)) [
            | inl q ↦ rw (retry_from, p, q, at_end) refl
            | inr q ↦ rw (retry_from, p, q) refl
          ])
          (inl refl)
  ]
  retry_from_end (suc left) attempt last e = elim (Result-cases (outcome attempt)) [
    | inl (a, p) ↦ ends_here (suc left) attempt _ (rw (retry_from, p) refl) (inr (rw p tt))
    | inr (x, p) ↦ elim (Bool-cases (caught x)) [
      | inl q ↦
          let before : (attempt == config.max_retries) ≡ false = ground arith in
          let later =
            goes_on left attempt x _ p q
              (retry_from_end left (suc attempt) (some x) (omega arith)) in
          subst (λ r. Ending (suc left) attempt r)
            (sym (retry_from_again (suc left) attempt last x p q before)) later
      | inr q ↦ ends_here (suc left) attempt _ (rw (retry_from, p, q) refl) (inr (rw p q))
    ]
  ]

  -- The function is retried after each exception that is caught, max_retries times at most, and each
  -- time after the delay of the attempt. The last attempt, which is the first to return or to raise
  -- what is not caught unless all the retries are used, gives the value or the exception.
  pub retry_outcome :
      (n : ℕ) × (n ≤ config.max_retries)
      × Failed n 0
      × (retry_with_exponential_backoff caught timed_out config fraction func
          ≡ (delays n 0, final (outcome n)))
      × ((n ≡ config.max_retries) ⊎ Settles (outcome n))
  unfolding retry_with_exponential_backoff
  retry_outcome =
      let (n, le, failed, e, h) = retry_from_end config.max_retries 0 none (omega arith) in
      let same : 0 + n ≡ n = omega arith in
      (
        n,
        le,
        failed,
        e ∙ ap (λ k. (delays n 0, final (outcome k))) same,
        subst (λ k. (n ≡ config.max_retries) ⊎ Settles (outcome k)) same h,
      )
