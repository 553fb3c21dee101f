-- ===== src/Tests/AdapterSaga.antt =====
-- The sagas of libs/adapters/saga_pattern.py on concrete steps.
use multi_ai_agent.Prelude.{
  ℕ, zero, suc, ◌≤◌, ◌≡◌, refl, Bool, true, false, none, some, List, [], ◌∷◌, map, reverse, String,
  Result, ok, err, arith, ◌⊎◌, length, All,
}
use multi_ai_agent.Prelude.Dict
use multi_ai_agent.Adapters.Saga.{
  Saga, SagaStep, SagaStatus, StepStatus, Effect, called, slept, undone, new_step, start,
  reverse_order, execute_saga_sequential, execute_saga_parallel, execute_compensation,
  execute_step_with_retry,
}
use multi_ai_agent.Adapters.Saga.Retry.{Raises, Final, execute_step_with_retry_outcome}
use multi_ai_agent.Adapters.Saga.Sequential.{
  Stopped, IsUndone, undo_calls, IsCompleted, compensation_after_failure,
  execute_saga_sequential_outcome,
}
use multi_ai_agent.Adapters.Saga.Parallel.{
  Abandoned, compensation_misses_running, execute_saga_parallel_outcome,
}
use multi_ai_agent.Adapters.Saga.Manager.{SagaManager, not_found, execute_saga, execute_steps}
use multi_ai_agent.Adapters.Saga.Manager.Metrics.{Inv, Ended, execute_saga-Ended}

abbrev always : ℕ → Result String ℕ
always n = ok 1

abbrev never : ℕ → Result String ℕ
never n = err "down"

-- the first call raises
abbrev once_down : ℕ → Result String ℕ
once_down zero = err "down"
once_down (suc n) = ok 2

abbrev step : String → (ℕ → Result String ℕ) → SagaStep ℕ
step id func = record {
  step_id = id;
  name = id;
  execute_func = func;
  compensate_func = some (ok tt);
  retry_attempts = 0;
  max_retries = 1;
  status = StepStatus.pending;
  result = none;
  error = none;
}

new_step_lem : new_step "a" "a" always (some (ok tt)) 1 ≡ step "a" always
unfolding new_step
new_step_lem = refl

abbrev trip : Saga ℕ
trip = record {
  saga_id = "trip";
  name = "trip";
  steps =
      step "flight" once_down ∷ step "hotel" always ∷ step "car" never ∷ step "mail" always ∷ [];
  parallel_execution = false;
  compensation_strategy = reverse_order;
  status = SagaStatus.pending;
  error = none;
}

trip_log :
    (execute_saga_sequential trip.steps).log
    ≡ called "flight"
      ∷ slept 1000
      ∷ called "flight"
      ∷ called "hotel"
      ∷ called "car"
      ∷ slept 1000
      ∷ called "car"
      ∷ []
unfolding execute_saga_sequential execute_step_with_retry
trip_log = refl

trip_fails : (execute_saga_sequential trip.steps).success ≡ false
unfolding execute_saga_sequential execute_step_with_retry
trip_fails = refl

trip_undone :
    (execute_compensation (record trip { steps = (execute_saga_sequential trip.steps).steps })).1
    ≡ undone "hotel" ∷ undone "flight" ∷ []
unfolding execute_compensation execute_saga_sequential execute_step_with_retry
trip_undone = refl

-- in parallel the mail is sent, and its compensation is not called
parallel_fails : (execute_saga_parallel (λ _. 0) trip.steps).1 ≡ false
unfolding execute_saga_parallel execute_step_with_retry
parallel_fails = refl

execute_step_with_retry_outcome_example :
    (n : ℕ) × Raises (step "flight" once_down) n 0
    × (n ≤ 1)
    × Final (step "flight" once_down) n (execute_step_with_retry (step "flight" once_down))
execute_step_with_retry_outcome_example = execute_step_with_retry_outcome (step "flight" once_down)

execute_saga_sequential_outcome_run :
    let run = execute_saga_sequential trip.steps in
    ((run.success ≡ true) × (length run.steps ≡ 4) × All IsCompleted run.steps)
    ⊎ ((run.success ≡ false) × Stopped trip.steps run.steps)
execute_saga_sequential_outcome_run = execute_saga_sequential_outcome trip.steps

compensation_after_failure_example :
    let run = execute_saga_sequential trip.steps in
    let (saga', log) = execute_compensation (record trip { steps = run.steps }) in
    (w : Stopped trip.steps run.steps) × (log ≡ undo_calls (reverse w.done))
    × All IsUndone saga'.steps
compensation_after_failure_example =
    compensation_after_failure trip refl (refl, (refl, (refl, (refl, tt)))) trip_fails

execute_saga_parallel_outcome_run :
    let (steps', success) = execute_saga_parallel (λ _. 0) trip.steps in
    ((success ≡ true) × (length steps' ≡ 4) × All IsCompleted steps')
    ⊎ ((success ≡ false) × Abandoned (map start trip.steps) steps')
execute_saga_parallel_outcome_run = execute_saga_parallel_outcome (λ _. 0) trip.steps

compensation_misses_running_example :
    let steps' = (execute_saga_parallel (λ _. 0) trip.steps).0 in
    (w : Abandoned (map start trip.steps) steps') × ((execute_compensation
        (record trip { steps = steps' })).1
      ≡ undo_calls (reverse w.done))
compensation_misses_running_example = compensation_misses_running trip (λ _. 0) refl parallel_fails

abbrev manager : SagaManager ℕ
manager = record {
  active_sagas = ("trip", trip) ∷ [];
  completed_sagas = [];
  saga_metrics = record {
    total_sagas = 1;
    completed_sagas = 0;
    failed_sagas = 0;
    compensated_sagas = 0;
    active_sagas = 1;
  };
}

manager-Inv : Inv manager
manager-Inv = record { accounted = refl; covered = omega arith }

execute_saga-Ended_example :
    ((Dict.get "trip" manager.active_sagas ≡ none)
      × (execute_saga (λ _. 0) manager "trip" ≡ err (not_found "trip")))
    ⊎ ((saga : Saga ℕ) × (m' : SagaManager ℕ) × (success : Bool) × (log : List Effect) × (Dict.get
            "trip" manager.active_sagas
          ≡ some saga)
        × (execute_saga (λ _. 0) manager "trip" ≡ ok (m', success, log))
        × (success ≡ (execute_steps (λ _. 0) saga).success)
        × Ended manager m' "trip" success
        × Inv m')
execute_saga-Ended_example = execute_saga-Ended (λ _. 0) manager "trip" manager-Inv
