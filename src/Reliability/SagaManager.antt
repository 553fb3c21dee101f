-- ===== src/Reliability/SagaManager.antt =====
-- libs/reliability/saga_manager.py: the execution of a saga and its compensation.
-- A step's calls stand as what they do: `execute` is the outcome of its tool, `compensation` that
-- of the function given for it, `tool_compensate` that of the tool's own; an exception is its
-- text. A time is a number of seconds. The times of single steps are written and reported only,
-- and are left out.
pub mod Run
pub mod Compensation
pub mod Outcomes
pub mod Registry
use multi_ai_agent.Prelude.{
  ℕ, zero, suc, ◌+◌, Bool, true, false, ◌&&◌, Option, none, some, List, [], ◌∷◌, String, is_some,
  if◌then◌else◌, Result, ok, err, get_elem?, set,
}

pub data SagaStepStatus : Type 0 where
  pending : SagaStepStatus
  executing : SagaStepStatus
  completed : SagaStepStatus
  compensating : SagaStepStatus
  compensated : SagaStepStatus
  failed : SagaStepStatus

pub data SagaStatus : Type 0 where
  running : SagaStatus
  completed : SagaStatus
  compensating : SagaStatus
  compensated : SagaStatus
  failed : SagaStatus

pub record SagaStep (R : Type 0) : Type 0 where
  pub step_id : String
  pub execute : Result String R
  pub compensation : Option (Result String Bool)
  pub tool_compensate : Result String Bool
  pub status : SagaStepStatus
  pub result : Option R
  pub error : Option String

pub record SagaExecution (R : Type 0) : Type 0 where
  pub saga_id : String
  pub tenant_id : String
  pub workflow_id : String
  pub status : SagaStatus
  pub steps : List (SagaStep R)
  pub current_step_index : ℕ
  pub start_time : ℕ
  pub end_time : Option ℕ
  pub error : Option String
  pub compensation_reason : Option String

pub record Counters : Type 0 where
  pub total_sagas : ℕ
  pub completed_sagas : ℕ
  pub compensated_sagas : ℕ
  pub failed_sagas : ℕ

abbrev pub is_failed : SagaStepStatus → Bool
is_failed SagaStepStatus.failed = true
is_failed _ = false

abbrev pub is_completed : SagaStepStatus → Bool
is_completed SagaStepStatus.completed = true
is_completed _ = false

-- How the loop over the steps ends: all of them ran, an exception left it, or a step is found to
-- have failed.
pub data Stop : Type 0 where
  finished : Stop
  raised : String → Stop
  step_failed : Option String → Stop

pub record StepsRun (R : Type 0) : Type 0 where
  pub steps : List (SagaStep R)
  pub index : ℕ
  pub stop : Stop

abbrev compensation_call : Option (Result String Bool) → Result String Bool → Result String Bool
compensation_call (some call) tool = call
compensation_call none tool = tool

abbrev after_call : Result String Bool → SagaStepStatus
after_call (ok true) = SagaStepStatus.compensated
after_call (ok false) = SagaStepStatus.failed
after_call (err e) = SagaStepStatus.failed

abbrev count_compensated : Bool → Counters → Counters
count_compensated true c = record c { compensated_sagas = c.compensated_sagas + 1 }
count_compensated false c = c

-- An execution and the manager's counters after it, with the ids of the steps compensated.
pub record Executed (R : Type 0) : Type 0 where
  pub execution : SagaExecution R
  pub counters : Counters
  pub log : List String

module _ {R : Type 0} where
  abbrev settle : Result String R → SagaStep R → SagaStep R × Option String
  settle (ok r) s = (record s { status = SagaStepStatus.completed; result = some r }, none)
  settle (err e) s = (record s { status = SagaStepStatus.failed; error = some e }, some e)

  -- `_execute_step`: the step, and the exception that is raised again.
  unfoldable pub execute_step : SagaStep R → SagaStep R × Option String
  execute_step s = settle s.execute (record s { status = SagaStepStatus.executing })

  -- what follows a step in the loop: `later` is the run of the steps after it
  abbrev after_step : SagaStep R × Option String → ℕ → List (SagaStep R) → StepsRun R → StepsRun R
  after_step (s, some e) i steps later = record { steps = s ∷ steps; index = i; stop = raised e }
  after_step (s, none) i steps later =
      if is_failed s.status
      then record { steps = s ∷ steps; index = i; stop = step_failed s.error }
      else record later { steps = s ∷ later.steps }

  -- The loop of `_execute_saga` from the step `i` on; `index` is `current_step_index`.
  unfoldable pub run_steps : ℕ → ℕ → List (SagaStep R) → StepsRun R
  run_steps i index [] = record { steps = []; index = index; stop = finished }
  run_steps i index (s ∷ steps) =
      let later = run_steps (suc i) i steps in after_step (execute_step s) i steps later

  unfoldable pub compensate_step : SagaStep R → SagaStep R
  compensate_step s = record s {
    status = after_call (compensation_call s.compensation s.tool_compensate);
  }

  -- the test that `_compensate_saga` makes of a step
  abbrev pub needs_compensation : SagaStep R → Bool
  needs_compensation s = is_completed s.status && is_some s.compensation

  -- The loop of `_compensate_saga` over the indices below `n`, the highest first: the steps and the
  -- ids of those compensated, or `none` for an IndexError.
  unfoldable pub compensate_below : ℕ → List (SagaStep R) → Option (List (SagaStep R) × List String)
  unfolding compensate_step
  compensate_below zero steps = some (steps, [])
  compensate_below (suc i) steps = elim (get_elem? steps i) [
    | none ↦ none
    | some s ↦ elim (needs_compensation s) [
      | true ↦ elim (compensate_below i (set steps i (compensate_step s))) [
        | none ↦ none
        | some (steps', log) ↦ some (steps', s.step_id ∷ log)
      ]
      | false ↦ compensate_below i steps
    ]
  ]

  -- `_compensate_saga`, with the time at its end. It counts a compensated saga if it ends.
  abbrev end_compensation :
      Option (List (SagaStep R) × List String)
      → ℕ
      → SagaExecution R
      → SagaExecution R × Bool × List String
  end_compensation none now x = (x, false, [])
  end_compensation (some (steps, log)) now x =
      (record x { steps = steps; status = SagaStatus.compensated; end_time = some now }, true, log)

  unfoldable pub compensate_saga :
      SagaExecution R → Option String → ℕ → SagaExecution R × Bool × List String
  compensate_saga x reason now =
      let x' = record x { status = SagaStatus.compensating; compensation_reason = reason } in
      end_compensation (compensate_below (suc x'.current_step_index) x'.steps) now x'

  abbrev with_compensation : SagaExecution R → Option String → ℕ → Counters → Executed R
  with_compensation x reason now c =
      let (x', ended, log) = compensate_saga x reason now in
      record { execution = x'; counters = count_compensated ended c; log = log }

  abbrev end_execution : Stop → SagaExecution R → ℕ → ℕ → Counters → Executed R
  end_execution finished x now later c = record {
    execution = record x { status = SagaStatus.completed; end_time = some now };
    counters = record c { completed_sagas = c.completed_sagas + 1 };
    log = [];
  }
  end_execution (step_failed e) x now later c = with_compensation x e later c
  end_execution (raised e) x now later c =
      with_compensation
        (record x { status = SagaStatus.failed; error = some e; end_time = some now }) (some e)
        later (record c { failed_sagas = c.failed_sagas + 1 })

  -- `_execute_saga`, with the times at the end of its loop and of the compensation.
  unfoldable pub execute_saga : SagaExecution R → ℕ → ℕ → Counters → Executed R
  unfolding compensate_saga
  execute_saga x now later c =
      let run = run_steps 0 x.current_step_index x.steps in
      end_execution run.stop (record x { steps = run.steps; current_step_index = run.index }) now
        later c
