-- ===== src/Adapters/Saga/Sequential.antt =====
-- The sequential execution of a saga's steps, and the compensation after a failure.
use multi_ai_agent.Prelude.{
  ℕ, zero, suc, ◌+◌, ◌≡◌, refl, ap, ◌∙◌, Bool, Bool-cases, is_some, filter, true, false, Option,
  none, some, List, [], ◌∷◌, ◌++◌, map, reverse, String, Result, ok, err, arith, ◌⊎◌, inl, inr,
  Result-cases, length, All,
}
use multi_ai_agent.Adapters.Saga.{
  Saga, SagaStep, StepStatus, execute_saga_sequential, execute_step_with_retry, retry_from, start,
  settle, completed_steps, is_completed, undo_log, Effect, undone, compensate_step,
  execute_compensation, reverse_order,
}

module _ {R : Type 0} where
  abbrev pub IsCompleted : SagaStep R → Type 0
  IsCompleted s = s.status ≡ StepStatus.completed

  abbrev pub IsFailed : SagaStep R → Type 0
  IsFailed s = s.status ≡ StepStatus.failed

  abbrev pub IsPending : SagaStep R → Type 0
  IsPending s = s.status ≡ StepStatus.pending

  -- what an execution never changes of a step
  abbrev pub identity : SagaStep R → String × Option (Result String (Unit {0}))
  identity s = (s.step_id, s.compensate_func)

  -- The execution stopped at one step: those before it are completed, it is failed, and those
  -- after it are as they were.
  pub record Stopped (steps steps' : List (SagaStep R)) : Type 0 where
    pub before : List (SagaStep R)
    pub step : SagaStep R
    pub after : List (SagaStep R)
    pub done : List (SagaStep R)
    pub step' : SagaStep R
    pub split : steps ≡ before ++ step ∷ after
    pub split' : steps' ≡ done ++ step' ∷ after
    pub same_steps : map identity done ≡ map identity before
    pub same_step : identity step' ≡ identity step
    pub completed : All IsCompleted done
    pub failed : IsFailed step'

  abbrev settle_step : SagaStep R → SagaStep R × Bool
  settle_step step = let run = execute_step_with_retry (start step) in settle run.outcome run.step

  settle-identity :
      (r : Result String R) (step : SagaStep R) → identity (settle r step).0 ≡ identity step
  settle-identity (ok r) step = refl
  settle-identity (err e) step = refl

  retry_from-identity :
      (left attempt : ℕ) (last_exception : Option String) (step : SagaStep R)
      → identity (retry_from left attempt last_exception step).step ≡ identity step
  unfolding retry_from
  retry_from-identity zero attempt last_exception step = refl
  retry_from-identity (suc left) attempt last_exception step =
      elim (Result-cases (step.execute_func attempt)) [
        | inl (r, p) ↦ rw (p) refl
        | inr (e, p) ↦ rw (p) (
            retry_from-identity left (suc attempt) (some e)
              (record step { retry_attempts = step.retry_attempts + 1 }))
      ]

  pub settle_run-identity :
      (step : SagaStep R)
      → (let run = execute_step_with_retry step in identity (settle run.outcome run.step).0)
        ≡ identity step
  unfolding execute_step_with_retry
  settle_run-identity step =
      settle-identity (execute_step_with_retry step).outcome (execute_step_with_retry step).step
      ∙ retry_from-identity (step.max_retries + 1) 0 none step

  settle_step-status :
      (step : SagaStep R)
      → ((settle_step step).1 ≡ true × IsCompleted (settle_step step).0)
        ⊎ ((settle_step step).1 ≡ false × IsFailed (settle_step step).0)
  settle_step-status step = elim (Result-cases (execute_step_with_retry (start step)).outcome) [
    | inl (r, p) ↦ inl (rw p, rw p)
    | inr (e, p) ↦ inr (rw p, rw p)
  ]

  -- The sequential execution succeeds with every step completed, or stops at the first step that
  -- fails: the steps before it are completed, it is failed, and the later ones are untouched; ids
  -- and compensations stay those of the steps given.
  pub execute_saga_sequential_outcome :
      (steps : List (SagaStep R))
      → let run = execute_saga_sequential steps in
        ((run.success ≡ true) × (length run.steps ≡ length steps) × All IsCompleted run.steps)
        ⊎ ((run.success ≡ false) × Stopped steps run.steps)
  unfolding execute_saga_sequential
  execute_saga_sequential_outcome [] = inl (refl, refl, tt)
  execute_saga_sequential_outcome (step ∷ steps) = elim (settle_step-status step) [
    | inr (b, f) ↦ inr (
      rw b,
      record {
        before = [];
        step = step;
        after = steps;
        done = [];
        step' = (settle_step step).0;
        split = refl;
        split' = rw b;
        same_steps = refl;
        same_step = settle_run-identity (start step);
        completed = tt;
        failed = f;
      },
    )
    | inl (b, c) ↦ elim (execute_saga_sequential_outcome steps) [
      | inl (t, l, a) ↦ inl (rw (b, t), rw (b, l), rw b (c, a))
      | inr (t, w) ↦ inr (
        rw (b, t),
        record {
          before = step ∷ w.before;
          step = w.step;
          after = w.after;
          done = (settle_step step).0 ∷ w.done;
          step' = w.step';
          split = ap (λ l. step ∷ l) w.split;
          split' = rw b (ap (λ l. (settle_step step).0 ∷ l) w.split');
          same_steps = rw (settle_run-identity (start step), w.same_steps) refl;
          same_step = w.same_step;
          completed = (c, w.completed);
          failed = w.failed;
        },
      )
    ]
  ]

  -- A step that needs no more compensation: it is not completed, or it has no compensation, or its
  -- compensation raised.
  abbrev pub IsUndone : SagaStep R → Type 0
  IsUndone s =
      (is_completed s.status ≡ false)
      ⊎ (s.compensate_func ≡ none)
      ⊎ ((e : String) × (s.compensate_func ≡ some (err e)))

  compensate_step-IsUndone : (step : SagaStep R) → IsUndone (compensate_step step)
  unfolding compensate_step
  compensate_step-IsUndone step = by_func step.compensate_func refl
    where
      by_func :
          (f : Option (Result String (Unit {0})))
          → step.compensate_func ≡ f
          → IsUndone (compensate_step step)
      by_func none e = inr (inl (ground arith))
      by_func (some (ok u)) e = inl (ground arith)
      by_func (some (err x)) e = inr (inr (x, ground arith))

  map-compensate_step-IsUndone :
      (steps : List (SagaStep R)) → All IsUndone (map compensate_step steps)
  map-compensate_step-IsUndone [] = tt
  map-compensate_step-IsUndone (s ∷ steps) =
      (compensate_step-IsUndone s, map-compensate_step-IsUndone steps)

  completed_steps-pending :
      (after : List (SagaStep R)) → All IsPending after → completed_steps after ≡ []
  completed_steps-pending [] h = refl
  completed_steps-pending (s ∷ after) h = rw h.0 (completed_steps-pending after h.1)

  completed_steps-stopped :
      (done : List (SagaStep R)) (step : SagaStep R) (after : List (SagaStep R))
      → All IsCompleted done
      → IsFailed step
      → All IsPending after
      → completed_steps (done ++ step ∷ after) ≡ done
  completed_steps-stopped [] step after h f p = rw f (completed_steps-pending after p)
  completed_steps-stopped (s ∷ done) step after h f p =
      let e : is_completed s.status ≡ true = rw h.0 in
      rw e (ap (λ l. s ∷ l) (completed_steps-stopped done step after h.1 f p))

  All-after :
      (before : List (SagaStep R)) (step : SagaStep R) (after : List (SagaStep R))
      → All IsPending (before ++ step ∷ after)
      → All IsPending after
  All-after [] step after h = h.1
  All-after (s ∷ before) step after h = All-after before step after h.1

  -- the steps that have a compensation, in their order, each called
  abbrev pub undo_calls : List (SagaStep R) → List Effect
  undo_calls steps = map (λ s. undone s.step_id) (filter (λ s. is_some s.compensate_func) steps)

  pub undo_log-undo_calls : (steps : List (SagaStep R)) → undo_log steps ≡ undo_calls steps
  unfolding undo_log
  undo_log-undo_calls [] = refl
  undo_log-undo_calls (s ∷ steps) = elim (Bool-cases (is_some s.compensate_func)) [
    | inl p ↦ rw (p, undo_log-undo_calls steps) refl
    | inr p ↦ rw (p, undo_log-undo_calls steps) refl
  ]

  -- After a failed execution of a new saga, the compensation calls the compensations of exactly
  -- the steps completed before the failing one, those that have one, the last first; then no step
  -- is left completed that has a compensation which did not raise.
  pub compensation_after_failure :
      (saga : Saga R)
      → saga.compensation_strategy ≡ reverse_order
      → All IsPending saga.steps
      → (execute_saga_sequential saga.steps).success ≡ false
      → let run = execute_saga_sequential saga.steps in
        let (saga', log) = execute_compensation (record saga { steps = run.steps }) in
        (w : Stopped saga.steps run.steps) × (log ≡ undo_calls (reverse w.done))
        × All IsUndone saga'.steps
  unfolding execute_compensation
  compensation_after_failure saga s p f = elim (execute_saga_sequential_outcome saga.steps) [
    | inl (t, l, a) ↦ cc
    | inr (t, w) ↦ (
      w,
      rw (s, w.split')
          (ap (λ l. undo_log (reverse l))
              (completed_steps-stopped w.done w.step' w.after w.completed w.failed
                (All-after w.before w.step w.after (rw w.split at p)))
            ∙ undo_log-undo_calls (reverse w.done)),
      map-compensate_step-IsUndone (execute_saga_sequential saga.steps).steps,
    )
  ]
