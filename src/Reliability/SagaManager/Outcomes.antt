-- ===== src/Reliability/SagaManager/Outcomes.antt =====
-- The whole execution of a saga.
use multi_ai_agent.Prelude.{
  ℕ, suc, ◌+◌, ◌≡◌, ap, ◌∙◌, false, some, List, [], ◌∷◌, ◌++◌, String, ◌⊎◌, inl, inr, length, map,
  reverse, arith, All,
}
use multi_ai_agent.Reliability.SagaManager.{
  SagaStep, SagaExecution, SagaStatus, SagaStepStatus, Counters, Executed, compensate_below,
  execute_saga, run_steps, needs_compensation, StepsRun,
}
use multi_ai_agent.Reliability.SagaManager.Run.{Stopped, IsCompleted, run_steps_outcome}
use multi_ai_agent.Reliability.SagaManager.Compensation.{
  rev_onto, rev_onto-reverse, length-reverse, compensate_if, undo_ids, compensate_below-rev_onto,
  map-reverse,
}

module _ {R : Type 0} where
  compensate_below-stopped :
      (done : List (SagaStep R)) (s : SagaStep R) (after : List (SagaStep R)) (n : ℕ)
      → s.status ≡ SagaStepStatus.failed
      → n ≡ length done
      → compensate_below (suc n) (done ++ s ∷ after)
        ≡ some (map compensate_if done ++ s ∷ after, undo_ids (reverse done))
  unfolding rev_onto
  compensate_below-stopped done s after n f e =
      let skip : needs_compensation s ≡ false = rw f in
      let whole = compensate_below-rev_onto (s ∷ reverse done) after in
      let same : suc n ≡ length (s ∷ reverse done) = omega (arith, length-reverse done) in
      rw (same, ← rev_onto-reverse done (s ∷ after), whole, skip)
        (ap (λ l. some (l, undo_ids (reverse done)))
          (ap (λ l. rev_onto l (s ∷ after)) (map-reverse compensate_if done)
            ∙ rev_onto-reverse (map compensate_if done) (s ∷ after)))

  -- The saga completed.
  pub record Succeeded (x : SagaExecution R) (now : ℕ) (c : Counters) (y : Executed R)
      : Type 0 where
    pub all_completed : All IsCompleted y.execution.steps
    pub same_length : length y.execution.steps ≡ length x.steps
    pub status : y.execution.status ≡ SagaStatus.completed
    pub end_time : y.execution.end_time ≡ some now
    pub counters : y.counters ≡ record c { completed_sagas = c.completed_sagas + 1 }
    pub log : y.log ≡ []

  -- A step raised `e`, and the saga was compensated.
  pub record RolledBack (x : SagaExecution R) (later : ℕ) (c : Counters) (y : Executed R)
      : Type 0 where
    pub exception : String
    pub run : StepsRun R
    pub stopped : Stopped x.steps run.steps 0 run.index exception
    pub steps : y.execution.steps ≡ map compensate_if stopped.done ++ stopped.step' ∷ stopped.after
    pub log : y.log ≡ undo_ids (reverse stopped.done)
    pub status : y.execution.status ≡ SagaStatus.compensated
    pub error : y.execution.error ≡ some exception
    pub reason : y.execution.compensation_reason ≡ some exception
    pub end_time : y.execution.end_time ≡ some later
    pub counters : y.counters ≡ record c {
      failed_sagas = c.failed_sagas + 1;
      compensated_sagas = c.compensated_sagas + 1;
    }

  -- An execution has one of two ends. All steps are completed, and so is the saga, which is
  -- counted. Or a step raises: the steps before it are completed, and of them those that have a
  -- compensation are compensated, the last first, each to end as compensated or failed; the
  -- failing step stays failed and the later ones are untouched. That saga ends as compensated, with
  -- the exception as its error and reason, and is counted both as failed and as compensated.
  pub execute_saga_outcome :
      (x : SagaExecution R) (now later : ℕ) (c : Counters)
      → Succeeded x now c (execute_saga x now later c)
        ⊎ RolledBack x later c (execute_saga x now later c)
  unfolding execute_saga
  execute_saga_outcome x now later c = elim (run_steps_outcome 0 x.current_step_index x.steps) [
    | inl (t, l, a) ↦ inl (record {
      all_completed = rw t a;
      same_length = rw t l;
      status = rw t;
      end_time = rw t;
      counters = rw t;
      log = rw t;
    })
    | inr (e, t, w) ↦
        (let run = run_steps 0 x.current_step_index x.steps in
          let place : run.index ≡ length w.done = omega (arith, w.place, w.same_length) in
          let undo : compensate_below (suc run.index) run.steps
              ≡ some (map compensate_if w.done ++ w.step' ∷ w.after, undo_ids (reverse w.done)) =
            ap (λ l. compensate_below (suc run.index) l) w.split'
            ∙ compensate_below-stopped w.done w.step' w.after run.index w.failed place in
          inr (record {
            exception = e;
            run = run;
            stopped = w;
            steps = rw (t, undo);
            log = rw (t, undo);
            status = rw (t, undo);
            error = rw (t, undo);
            reason = rw (t, undo);
            end_time = rw (t, undo);
            counters = rw (t, undo);
          }))
  ]
