-- ===== src/Adapters/Saga.antt =====
-- libs/adapters/saga_pattern.py: the steps of a saga, their execution and their compensation.
-- A step's functions stand as what they do: `execute_func n` is the outcome of its call in the
-- attempt `n`, `wait_for` around it (so a timeout is one of its errors), and an exception is its
-- text. The calls, sleeps and compensations are logged as effects, in their order. The time
-- stamps, which the code writes and reports but does not read, are left out.
pub mod Retry
pub mod Sequential
pub mod Parallel
pub mod Manager
use multi_ai_agent.Prelude.{
  ℕ, zero, suc, ◌+◌, ◌-◌, ◌*◌, ◌^◌, min, Bool, true, false, ◌&&◌, not, Option, none, some, List, [],
  ◌∷◌, ◌++◌, map, reverse, String, ltb, if◌then◌else◌, Result, ok, err, filter, is_some,
}

pub data SagaStatus : Type 0 where
  pending : SagaStatus
  running : SagaStatus
  completed : SagaStatus
  compensating : SagaStatus
  compensated : SagaStatus
  failed : SagaStatus

pub data StepStatus : Type 0 where
  pending : StepStatus
  running : StepStatus
  completed : StepStatus
  failed : StepStatus
  compensated : StepStatus

pub record SagaStep (R : Type 0) : Type 0 where
  pub step_id : String
  pub name : String
  pub execute_func : ℕ → Result String R
  pub compensate_func : Option (Result String (Unit {0}))
  pub retry_attempts : ℕ
  pub max_retries : ℕ
  pub status : StepStatus
  pub result : Option R
  pub error : Option String

pub data CompensationStrategy : Type 0 where
  reverse_order : CompensationStrategy
  other_order : String → CompensationStrategy

pub record Saga (R : Type 0) : Type 0 where
  pub saga_id : String
  pub name : String
  pub steps : List (SagaStep R)
  pub parallel_execution : Bool
  pub compensation_strategy : CompensationStrategy
  pub status : SagaStatus
  pub error : Option String

pub data Effect : Type 0 where
  called : String → Effect
  slept : ℕ → Effect
  undone : String → Effect

-- in milliseconds
abbrev pub backoff : ℕ → ℕ
backoff attempt = min (1000 * 2 ^ attempt) 10000

abbrev pause : ℕ → ℕ → List Effect → List Effect
pause attempt max_retries log =
    if ltb attempt max_retries then slept (backoff attempt) ∷ log else log

abbrev pub is_completed : StepStatus → Bool
is_completed StepStatus.completed = true
is_completed _ = false

pub record Retried (R : Type 0) : Type 0 where
  pub step : SagaStep R
  pub outcome : Result String R
  pub log : List Effect

pub record Executed (R : Type 0) : Type 0 where
  pub steps : List (SagaStep R)
  pub success : Bool
  pub log : List Effect

module _ {R : Type 0} where
  unfoldable pub new_step :
      String → String → (ℕ → Result String R) → Option (Result String (Unit {0})) → ℕ → SagaStep R
  new_step step_id name execute_func compensate_func max_retries = record {
    step_id = step_id;
    name = name;
    execute_func = execute_func;
    compensate_func = compensate_func;
    retry_attempts = 0;
    max_retries = max_retries;
    status = StepStatus.pending;
    result = none;
    error = none;
  }

  unfoldable pub add_step : Saga R → SagaStep R → Saga R
  add_step saga step = record saga { steps = saga.steps ++ step ∷ [] }

  -- `raise last_exception`; with no pass made, `raise None` is a TypeError
  abbrev raise_last : Option String → Result String R
  raise_last none = err "exceptions must derive from BaseException"
  raise_last (some e) = err e

  abbrev pass : Result String R → SagaStep R → ℕ → (String → SagaStep R → Retried R) → Retried R
  pass (ok r) step attempt later = record {
    step = step;
    outcome = ok r;
    log = called step.step_id ∷ [];
  }
  pass (err e) step attempt later =
      let rest = later e (record step { retry_attempts = step.retry_attempts + 1 }) in
      record {
        step = rest.step;
        outcome = rest.outcome;
        log = called step.step_id ∷ pause attempt step.max_retries rest.log;
      }

  -- the passes left of `for attempt in range(step.max_retries + 1)`
  unfoldable pub retry_from : ℕ → ℕ → Option String → SagaStep R → Retried R
  retry_from zero attempt last_exception step = record {
    step = step;
    outcome = raise_last last_exception;
    log = [];
  }
  retry_from (suc left) attempt last_exception step =
      pass (step.execute_func attempt) step attempt
        (λ e step'. retry_from left (suc attempt) (some e) step')

  unfoldable pub execute_step_with_retry : SagaStep R → Retried R
  unfolding retry_from
  execute_step_with_retry step = retry_from (step.max_retries + 1) 0 none step

  -- how both executions record the outcome of a step, and whether they go on
  abbrev pub settle : Result String R → SagaStep R → SagaStep R × Bool
  settle (ok r) step = (record step { result = some r; status = StepStatus.completed }, true)
  settle (err e) step = (record step { status = StepStatus.failed; error = some e }, false)

  abbrev pub start : SagaStep R → SagaStep R
  start step = record step { status = StepStatus.running }

  unfoldable pub execute_saga_sequential : List (SagaStep R) → Executed R
  execute_saga_sequential [] = record { steps = []; success = true; log = [] }
  execute_saga_sequential (step ∷ steps) =
      let run = execute_step_with_retry (start step) in
      let (step', go_on) = settle run.outcome run.step in
      let rest = execute_saga_sequential steps in
      if go_on
      then record { steps = step' ∷ rest.steps; success = rest.success; log = run.log ++ rest.log }
      else record { steps = step' ∷ steps; success = false; log = run.log }

  abbrev pub abandon : (SagaStep R → ℕ) → SagaStep R → SagaStep R
  abandon seen step = record step { retry_attempts = step.retry_attempts + seen step }

  -- All tasks have been created, and they are awaited in order. At the first failure the loop
  -- returns and the later tasks are neither awaited nor cancelled: `seen step` is the number of
  -- failed attempts that such a task has counted by then.
  unfoldable pub await_tasks : (SagaStep R → ℕ) → List (SagaStep R) → List (SagaStep R) × Bool
  await_tasks seen [] = ([], true)
  await_tasks seen (step ∷ steps) =
      let run = execute_step_with_retry step in
      let (step', go_on) = settle run.outcome run.step in
      let (steps', success) = await_tasks seen steps in
      if go_on then (step' ∷ steps', success) else (step' ∷ map (abandon seen) steps, false)

  unfoldable pub execute_saga_parallel :
      (SagaStep R → ℕ) → List (SagaStep R) → List (SagaStep R) × Bool
  unfolding await_tasks
  execute_saga_parallel seen steps = await_tasks seen (map start steps)

  abbrev pub completed_steps : List (SagaStep R) → List (SagaStep R)
  completed_steps = filter (λ s. is_completed s.status)

  abbrev pub in_order : CompensationStrategy → List (SagaStep R) → List (SagaStep R)
  in_order reverse_order steps = reverse steps
  in_order (other_order _) steps = steps

  abbrev after_undo : Option (Result String (Unit {0})) → SagaStep R → SagaStep R
  after_undo none step = step
  after_undo (some (ok u)) step = record step { status = StepStatus.compensated }
  after_undo (some (err e)) step = step

  -- what the compensation makes of a step: only the completed steps are reached
  unfoldable pub compensate_step : SagaStep R → SagaStep R
  compensate_step step =
      if is_completed step.status then after_undo step.compensate_func step else step

  -- the compensations that are called, a failing one too
  unfoldable pub undo_log : List (SagaStep R) → List Effect
  undo_log [] = []
  undo_log (step ∷ steps) =
      let rest = undo_log steps in
      if is_some step.compensate_func then undone step.step_id ∷ rest else rest

  unfoldable pub execute_compensation : Saga R → Saga R × List Effect
  unfolding compensate_step undo_log
  execute_compensation saga = (
    record saga { status = SagaStatus.compensating; steps = map compensate_step saga.steps },
    undo_log (in_order saga.compensation_strategy (completed_steps saga.steps)),
  )
