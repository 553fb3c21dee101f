-- ===== src/Adapters/Saga/Parallel.antt =====
-- The parallel execution of a saga's steps, and what the compensation after a failure reaches.
use multi_ai_agent.Prelude.{
  ℕ, suc, ◌≡◌, refl, ap, ◌∙◌, Bool, true, false, List, [], ◌∷◌, ◌++◌, map, reverse, ◌⊎◌, inl, inr,
  Result-cases, length, All,
}
use multi_ai_agent.Adapters.Saga.{
  Saga, SagaStep, StepStatus, await_tasks, abandon, execute_saga_parallel, execute_step_with_retry,
  start, settle, completed_steps, is_completed, undo_log, execute_compensation, reverse_order,
}
use multi_ai_agent.Adapters.Saga.Sequential.{
  IsCompleted, IsFailed, identity, settle_run-identity, undo_calls, undo_log-undo_calls,
}

module _ {R : Type 0} where
  abbrev pub IsRunning : SagaStep R → Type 0
  IsRunning s = s.status ≡ StepStatus.running

  abbrev settle_task : SagaStep R → SagaStep R × Bool
  settle_task step = let run = execute_step_with_retry step in settle run.outcome run.step

  -- The tasks were awaited up to one that failed: the steps before it are completed, it is failed,
  -- and the later ones still run.
  pub record Abandoned (steps steps' : List (SagaStep R)) : Type 0 where
    pub before : List (SagaStep R)
    pub step : SagaStep R
    pub after : List (SagaStep R)
    pub done : List (SagaStep R)
    pub step' : SagaStep R
    pub after' : List (SagaStep R)
    pub split : steps ≡ before ++ step ∷ after
    pub split' : steps' ≡ done ++ step' ∷ after'
    pub same_steps : map identity done ≡ map identity before
    pub same_step : identity step' ≡ identity step
    pub completed : All IsCompleted done
    pub failed : IsFailed step'
    pub same_after : length after' ≡ length after
    pub running : All IsRunning after'

  settle_task-status :
      (step : SagaStep R)
      → ((settle_task step).1 ≡ true × IsCompleted (settle_task step).0)
        ⊎ ((settle_task step).1 ≡ false × IsFailed (settle_task step).0)
  settle_task-status step = elim (Result-cases (execute_step_with_retry step).outcome) [
    | inl (r, p) ↦ inl (rw p, rw p)
    | inr (e, p) ↦ inr (rw p, rw p)
  ]

  map-abandon-IsRunning :
      (seen : SagaStep R → ℕ) (steps : List (SagaStep R))
      → All IsRunning steps
      → All IsRunning (map (abandon seen) steps)
        × (length (map (abandon seen) steps) ≡ length steps)
  map-abandon-IsRunning seen [] h = (tt, refl)
  map-abandon-IsRunning seen (s ∷ steps) h =
      let (r, l) = map-abandon-IsRunning seen steps h.1 in ((h.0, r), ap suc l)

  await_tasks-outcome :
      (seen : SagaStep R → ℕ) (steps : List (SagaStep R))
      → All IsRunning steps
      → let (steps', success) = await_tasks seen steps in
        ((success ≡ true) × (length steps' ≡ length steps) × All IsCompleted steps')
        ⊎ ((success ≡ false) × Abandoned steps steps')
  unfolding await_tasks
  await_tasks-outcome seen [] h = inl (refl, refl, tt)
  await_tasks-outcome seen (step ∷ steps) h = elim (settle_task-status step) [
    | inr (b, f) ↦
        (let (r, l) = map-abandon-IsRunning seen steps h.1 in
          inr (
            rw b,
            record {
              before = [];
              step = step;
              after = steps;
              done = [];
              step' = (settle_task step).0;
              after' = map (abandon seen) steps;
              split = refl;
              split' = rw b;
              same_steps = refl;
              same_step = settle_run-identity step;
              completed = tt;
              failed = f;
              same_after = l;
              running = r;
            },
          ))
    | inl (b, c) ↦ elim (await_tasks-outcome seen steps h.1) [
      | inl (t, l, a) ↦ inl (rw (b, t), rw (b, l), rw b (c, a))
      | inr (t, w) ↦ inr (
        rw (b, t),
        record {
          before = step ∷ w.before;
          step = w.step;
          after = w.after;
          done = (settle_task step).0 ∷ w.done;
          step' = w.step';
          after' = w.after';
          split = ap (λ l. step ∷ l) w.split;
          split' = rw b (ap (λ l. (settle_task step).0 ∷ l) w.split');
          same_steps = rw (settle_run-identity step, w.same_steps) refl;
          same_step = w.same_step;
          completed = (c, w.completed);
          failed = w.failed;
          same_after = w.same_after;
          running = w.running;
        },
      )
    ]
  ]

  map-start-IsRunning : (steps : List (SagaStep R)) → All IsRunning (map start steps)
  map-start-IsRunning [] = tt
  map-start-IsRunning (s ∷ steps) = (refl, map-start-IsRunning steps)

  -- The parallel execution succeeds with every step completed, or stops at the first step, in the
  -- order of the list, whose task fails: the steps before it are completed, it is failed, and every
  -- step after it is left running, whatever its task does.
  pub execute_saga_parallel_outcome :
      (seen : SagaStep R → ℕ) (steps : List (SagaStep R))
      → let (steps', success) = execute_saga_parallel seen steps in
        ((success ≡ true) × (length steps' ≡ length (map start steps)) × All IsCompleted steps')
        ⊎ ((success ≡ false) × Abandoned (map start steps) steps')
  unfolding execute_saga_parallel
  execute_saga_parallel_outcome seen steps =
      await_tasks-outcome seen (map start steps) (map-start-IsRunning steps)

  completed_steps-running :
      (steps : List (SagaStep R)) → All IsRunning steps → completed_steps steps ≡ []
  completed_steps-running [] h = refl
  completed_steps-running (s ∷ steps) h = rw h.0 (completed_steps-running steps h.1)

  completed_steps-abandoned :
      (done : List (SagaStep R)) (step : SagaStep R) (after : List (SagaStep R))
      → All IsCompleted done
      → IsFailed step
      → All IsRunning after
      → completed_steps (done ++ step ∷ after) ≡ done
  completed_steps-abandoned [] step after h f p = rw f (completed_steps-running after p)
  completed_steps-abandoned (s ∷ done) step after h f p =
      let e : is_completed s.status ≡ true = rw h.0 in
      rw e (ap (λ l. s ∷ l) (completed_steps-abandoned done step after h.1 f p))

  -- After a failed parallel execution the compensation calls the compensations of the completed
  -- steps before the failing one only: those of the steps after it are never called, also where
  -- their tasks return.
  pub compensation_misses_running :
      (saga : Saga R) (seen : SagaStep R → ℕ)
      → saga.compensation_strategy ≡ reverse_order
      → (execute_saga_parallel seen saga.steps).1 ≡ false
      → let steps' = (execute_saga_parallel seen saga.steps).0 in
        (w : Abandoned (map start saga.steps) steps') × ((execute_compensation
            (record saga { steps = steps' })).1
          ≡ undo_calls (reverse w.done))
  unfolding execute_compensation
  compensation_misses_running saga seen s f = elim (execute_saga_parallel_outcome seen saga.steps) [
    | inl (t, l, a) ↦ cc
    | inr (t, w) ↦ (
      w,
      rw (s, w.split')
          (ap (λ l. undo_log (reverse l))
              (completed_steps-abandoned w.done w.step' w.after' w.completed w.failed w.running)
            ∙ undo_log-undo_calls (reverse w.done)),
    )
  ]
