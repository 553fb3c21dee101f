-- ===== src/Reliability/SagaManager/Registry.antt =====
-- The saga manager: its executions by their ids, and the operations on them. The task that
-- `start_saga` creates runs later, as `run_task`; the id, which `uuid4` draws, is an argument.
pub mod Cleanup
pub mod Cancel
use multi_ai_agent.Prelude.{
  ℕ, zero, suc, ◌+◌, ◌-◌, ◌*◌, max, Bool, true, false, ◌&&◌, Option, none, some, List, [], ◌∷◌,
  String, ltb, if◌then◌else◌, Result, ok, err, length, filter, map,
}
use multi_ai_agent.Prelude.Dict
use multi_ai_agent.Prelude.Dict.{Dict}
use multi_ai_agent.Reliability.SagaManager.{
  SagaStep, SagaStepStatus, SagaExecution, SagaStatus, Counters, Executed, execute_saga,
  compensate_saga, count_compensated,
}

pub record SagaManager (R : Type 0) : Type 0 where
  pub active_sagas : Dict (SagaExecution R)
  pub counters : Counters

-- The configuration of a step: its tool and parameters as what their calls do.
pub record StepConfig (R : Type 0) : Type 0 where
  pub execute : Result String R
  pub tool_compensate : Result String Bool
  pub compensation : Option (Result String Bool)

abbrev is_running : SagaStatus → Bool
is_running SagaStatus.running = true
is_running _ = false

abbrev is_compensating : SagaStatus → Bool
is_compensating SagaStatus.compensating = true
is_compensating _ = false

-- COMPLETED, COMPENSATED and FAILED
abbrev pub has_ended : SagaStatus → Bool
has_ended SagaStatus.running = false
has_ended SagaStatus.compensating = false
has_ended _ = true

abbrev before : Option ℕ → ℕ → ℕ → Bool
before none age now = false
before (some t) age now = ltb (t + age) now

pub record Statistics : Type 0 where
  pub counters : Counters
  pub active_sagas : ℕ
  pub compensating_sagas : ℕ
  -- rates as numerator and denominator
  pub success_rate : ℕ × ℕ
  pub compensation_rate : ℕ × ℕ

pub data IndexError : Type 0 where
  list_index_out_of_range : IndexError

module _ {R : Type 0} where
  -- `step_id i` is the text `{saga_id}_step_{i}`
  abbrev build_steps : (ℕ → String) → ℕ → List (StepConfig R) → List (SagaStep R)
  build_steps step_id i [] = []
  build_steps step_id i (config ∷ configs) =
      record {
        step_id = step_id i;
        execute = config.execute;
        compensation = config.compensation;
        tool_compensate = config.tool_compensate;
        status = SagaStepStatus.pending;
        result = none;
        error = none;
      }
      ∷ build_steps step_id (suc i) configs

  abbrev new_execution :
      String → (ℕ → String) → String → String → List (StepConfig R) → ℕ → SagaExecution R
  new_execution saga_id step_id tenant_id workflow_id configs now = record {
    saga_id = saga_id;
    tenant_id = tenant_id;
    workflow_id = workflow_id;
    status = SagaStatus.running;
    steps = build_steps step_id 0 configs;
    current_step_index = 0;
    start_time = now;
    end_time = none;
    error = none;
    compensation_reason = none;
  }

  unfoldable pub start_saga :
      SagaManager R
      → String
      → (ℕ → String)
      → String
      → String
      → List (StepConfig R)
      → ℕ
      → SagaManager R × String
  start_saga m saga_id step_id tenant_id workflow_id configs now =
      let x = new_execution saga_id step_id tenant_id workflow_id configs now in
      (
        record m {
          active_sagas = Dict.put saga_id x m.active_sagas;
          counters = record m.counters { total_sagas = m.counters.total_sagas + 1 };
        },
        saga_id,
      )

  abbrev store : SagaManager R → String → SagaExecution R → Counters → SagaManager R
  store m saga_id x counters = record m {
    active_sagas = Dict.put saga_id x m.active_sagas;
    counters = counters;
  }

  -- The task of a saga that the manager still holds, run without an interruption.
  abbrev run_found : Option (SagaExecution R) → SagaManager R → String → ℕ → ℕ → SagaManager R
  run_found none m saga_id now later = m
  run_found (some x) m saga_id now later =
      let y = execute_saga x now later m.counters in store m saga_id y.execution y.counters

  unfoldable pub run_task : SagaManager R → String → ℕ → ℕ → SagaManager R
  run_task m saga_id now later = run_found (Dict.get saga_id m.active_sagas) m saga_id now later

  abbrev cancel_found :
      Option (SagaExecution R) → SagaManager R → String → ℕ → SagaManager R × Result IndexError Bool
  cancel_found none m saga_id now = (m, ok false)
  cancel_found (some x) m saga_id now =
      let (y, ended, log) = compensate_saga x (some "Manually cancelled") now in
      if is_running x.status
      then (
        store m saga_id y (count_compensated ended m.counters),
        if ended then ok true else err list_index_out_of_range,
      )
      else (m, ok false)

  -- The index is out of range if the saga has no step.
  unfoldable pub cancel_saga : SagaManager R → String → ℕ → SagaManager R × Result IndexError Bool
  cancel_saga m saga_id now = cancel_found (Dict.get saga_id m.active_sagas) m saga_id now

  abbrev pub is_old : ℕ → ℕ → SagaExecution R → Bool
  is_old max_age now x = before x.end_time max_age now && has_ended x.status

  abbrev pub remove_all : List String → Dict (SagaExecution R) → Dict (SagaExecution R)
  remove_all [] d = d
  remove_all (k ∷ ks) d = remove_all ks (Dict.remove k d)

  abbrev pub old_ids : ℕ → ℕ → Dict (SagaExecution R) → List String
  old_ids max_age now [] = []
  old_ids max_age now ((k, x) ∷ d) =
      let rest = old_ids max_age now d in if is_old max_age now x then k ∷ rest else rest

  unfoldable pub cleanup_completed_sagas : SagaManager R → ℕ → ℕ → SagaManager R
  cleanup_completed_sagas m max_age_hours now = record m {
    active_sagas = remove_all (old_ids (max_age_hours * 3600) now m.active_sagas) m.active_sagas;
  }

  abbrev count_status : (SagaStatus → Bool) → Dict (SagaExecution R) → ℕ
  count_status p [] = 0
  count_status p ((k, x) ∷ d) = let rest = count_status p d in if p x.status then suc rest else rest

  unfoldable pub get_statistics : SagaManager R → Statistics
  get_statistics m = record {
    counters = m.counters;
    active_sagas = count_status is_running m.active_sagas;
    compensating_sagas = count_status is_compensating m.active_sagas;
    success_rate = (m.counters.completed_sagas, max 1 m.counters.total_sagas);
    compensation_rate = (m.counters.compensated_sagas, max 1 m.counters.total_sagas);
  }
