-- ===== src/Adapters/Saga/Manager.antt =====
-- The saga manager: its sagas by their ids, and its counters. `execute_saga` is one uninterrupted
-- run. Its handler for exceptions has nothing to catch: both executions and the compensation of
-- each step catch all that the steps' functions raise, so the model has no step into it.
pub mod Metrics
use multi_ai_agent.Prelude.{
  ℕ, ◌+◌, ◌-◌, Bool, true, false, Option, none, some, List, [], ◌∷◌, ◌++◌, map, String, ltb,
  if◌then◌else◌, Result, ok, err,
}
use multi_ai_agent.Prelude.Dict
use multi_ai_agent.Prelude.Dict.{Dict}
use multi_ai_agent.Adapters.Saga.{
  Saga, SagaStep, SagaStatus, StepStatus, Effect, Executed, execute_saga_sequential,
  execute_saga_parallel, execute_compensation, reverse_order,
}

pub record SagaMetrics : Type 0 where
  pub total_sagas : ℕ
  pub completed_sagas : ℕ
  pub failed_sagas : ℕ
  pub compensated_sagas : ℕ
  pub active_sagas : ℕ

pub record SagaManager (R : Type 0) : Type 0 where
  pub active_sagas : Dict (Saga R)
  pub completed_sagas : Dict (Saga R)
  pub saga_metrics : SagaMetrics

pub data NotFound : Type 0 where
  not_found : String → NotFound

pub record StepReport : Type 0 where
  pub step_id : String
  pub name : String
  pub status : StepStatus
  pub error : Option String

pub record SagaReport : Type 0 where
  pub saga_id : String
  pub name : String
  pub status : SagaStatus
  pub error : Option String
  pub steps : List StepReport

module _ {R : Type 0} where
  unfoldable pub new_saga : String → String → Saga R
  new_saga saga_id name = record {
    saga_id = saga_id;
    name = name;
    steps = [];
    parallel_execution = false;
    compensation_strategy = reverse_order;
    status = SagaStatus.pending;
    error = none;
  }

  unfoldable pub create_saga : SagaManager R → String → String → SagaManager R × Saga R
  unfolding new_saga
  create_saga m saga_id name =
      let saga = new_saga saga_id name in
      (
        record m {
          active_sagas = Dict.put saga_id saga m.active_sagas;
          saga_metrics = record m.saga_metrics {
            total_sagas = m.saga_metrics.total_sagas + 1;
            active_sagas = m.saga_metrics.active_sagas + 1;
          };
        },
        saga,
      )

  abbrev run_parallel : List (SagaStep R) × Bool → Executed R
  run_parallel (steps, success) = record { steps = steps; success = success; log = [] }

  -- The interleaving of parallel tasks is not modelled, so their effects are not in the log.
  unfoldable pub execute_steps : (SagaStep R → ℕ) → Saga R → Executed R
  execute_steps seen saga =
      if saga.parallel_execution
      then run_parallel (execute_saga_parallel seen saga.steps)
      else execute_saga_sequential saga.steps

  -- A saga that has ended leaves the active ones.
  abbrev retire : SagaManager R → String → Saga R → SagaMetrics → SagaManager R
  retire m saga_id saga metrics = record m {
    completed_sagas = Dict.put saga_id saga m.completed_sagas;
    active_sagas = Dict.remove saga_id m.active_sagas;
    saga_metrics = record metrics { active_sagas = metrics.active_sagas - 1 };
  }

  abbrev finish : SagaManager R → String → Saga R → Executed R → SagaManager R × Bool × List Effect
  finish m saga_id saga run =
      let saga' = record saga { status = SagaStatus.running; steps = run.steps } in
      let (undone_saga, undo) = execute_compensation saga' in
      if run.success
      then (
        retire m saga_id (record saga' { status = SagaStatus.completed })
            (record m.saga_metrics { completed_sagas = m.saga_metrics.completed_sagas + 1 }),
        true,
        run.log,
      )
      else (
        retire m saga_id (record undone_saga { status = SagaStatus.compensated })
            (record m.saga_metrics { compensated_sagas = m.saga_metrics.compensated_sagas + 1 }),
        false,
        run.log ++ undo,
      )

  abbrev execute_found :
      Option (Saga R)
      → (SagaStep R → ℕ)
      → SagaManager R
      → String
      → Result NotFound (SagaManager R × Bool × List Effect)
  execute_found none seen m saga_id = err (not_found saga_id)
  execute_found (some saga) seen m saga_id = ok (finish m saga_id saga (execute_steps seen saga))

  unfoldable pub execute_saga :
      (SagaStep R → ℕ)
      → SagaManager R
      → String
      → Result NotFound (SagaManager R × Bool × List Effect)
  unfolding execute_steps
  execute_saga seen m saga_id = execute_found (Dict.get saga_id m.active_sagas) seen m saga_id

  abbrev step_report : SagaStep R → StepReport
  step_report s = record { step_id = s.step_id; name = s.name; status = s.status; error = s.error }

  abbrev report : Option (Saga R) → Option SagaReport
  report none = none
  report (some saga) = some (record {
    saga_id = saga.saga_id;
    name = saga.name;
    status = saga.status;
    error = saga.error;
    steps = map step_report saga.steps;
  })

  abbrev or_else : Option (Saga R) → Option (Saga R) → Option (Saga R)
  or_else (some s) t = some s
  or_else none t = t

  unfoldable pub get_saga_status : SagaManager R → String → Option SagaReport
  get_saga_status m saga_id =
      report (or_else (Dict.get saga_id m.active_sagas) (Dict.get saga_id m.completed_sagas))

  -- the counters, with the success rate as numerator and denominator
  unfoldable pub get_saga_metrics : SagaManager R → SagaMetrics × (ℕ × ℕ)
  get_saga_metrics m =
      let s = m.saga_metrics in
      (s, if ltb 0 s.total_sagas then (s.completed_sagas, s.total_sagas) else (0, 1))
