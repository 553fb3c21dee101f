-- ===== src/Reliability/SagaManager/Run.antt =====
-- The loop over the steps: how it ends, and what it leaves of the steps.
use multi_ai_agent.Prelude.{
  ℕ, suc, ◌+◌, ◌≡◌, refl, ap, false, none, some, List, [], ◌∷◌, ◌++◌, String, err, arith, ◌⊎◌, inl,
  inr, Result-cases, length, All,
}
use multi_ai_agent.Reliability.SagaManager.{
  SagaStep, SagaStepStatus, finished, raised, execute_step, run_steps, is_failed,
}

module _ {R : Type 0} where
  abbrev pub IsCompleted : SagaStep R → Type 0
  IsCompleted s = s.status ≡ SagaStepStatus.completed

  -- The loop stopped with the exception of one step: those before it are completed, it is failed,
  -- those after it are as they were, and `index` is its place.
  pub record Stopped (steps steps' : List (SagaStep R)) (first index : ℕ) (e : String)
      : Type 0 where
    pub before : List (SagaStep R)
    pub step : SagaStep R
    pub after : List (SagaStep R)
    pub done : List (SagaStep R)
    pub step' : SagaStep R
    pub split : steps ≡ before ++ step ∷ after
    pub split' : steps' ≡ done ++ step' ∷ after
    pub place : index ≡ first + length before
    pub same_length : length done ≡ length before
    pub completed : All IsCompleted done
    pub failed : step'.status ≡ SagaStepStatus.failed
    pub raises : step.execute ≡ err e

  execute_step-cases :
      (s : SagaStep R)
      → ((execute_step s).1 ≡ none × IsCompleted (execute_step s).0)
        ⊎ ((e : String) × ((execute_step s).1 ≡ some e)
            × ((execute_step s).0.status ≡ SagaStepStatus.failed)
            × (s.execute ≡ err e))
  unfolding execute_step
  execute_step-cases s = elim (Result-cases s.execute) [
    | inl (r, p) ↦ inl (rw p, rw p)
    | inr (e, p) ↦ inr (e, rw p, rw p, p)
  ]

  -- The loop runs all steps to completion, or an exception of a step leaves it; it never finds that
  -- a step has failed, since `_execute_step` raises the exception of a failing step again.
  pub run_steps_outcome :
      (first index : ℕ) (steps : List (SagaStep R))
      → let run = run_steps first index steps in
        ((run.stop ≡ finished) × (length run.steps ≡ length steps) × All IsCompleted run.steps)
        ⊎ ((e : String) × (run.stop ≡ raised e) × Stopped steps run.steps first run.index e)
  unfolding run_steps
  run_steps_outcome first index [] = inl (refl, refl, tt)
  run_steps_outcome first index (s ∷ steps) = elim (execute_step-cases s) [
    | inr (e, p, f, x) ↦ inr (
      e,
      rw p,
      record {
        before = [];
        step = s;
        after = steps;
        done = [];
        step' = (execute_step s).0;
        split = refl;
        split' = rw p;
        place = rw p (omega arith);
        same_length = refl;
        completed = tt;
        failed = f;
        raises = x;
      },
    )
    | inl (p, c) ↦
        (let go_on : is_failed (execute_step s).0.status ≡ false = rw c in
          elim (run_steps_outcome (suc first) first steps) [
            | inl (t, l, a) ↦ inl (rw (p, go_on) t, rw (p, go_on) (ap suc l), rw (p, go_on) (c, a))
            | inr (e, t, w) ↦ inr (
              e,
              rw (p, go_on) t,
              record {
                before = s ∷ w.before;
                step = w.step;
                after = w.after;
                done = (execute_step s).0 ∷ w.done;
                step' = w.step';
                split = ap (λ l. s ∷ l) w.split;
                split' = rw (p, go_on) (ap (λ l. (execute_step s).0 ∷ l) w.split');
                place = rw (p, go_on) (omega (arith, w.place));
                same_length = ap suc w.same_length;
                completed = (c, w.completed);
                failed = w.failed;
                raises = w.raises;
              },
            )
          ])
  ]
