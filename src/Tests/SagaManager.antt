-- ===== src/Tests/SagaManager.antt =====
-- The sagas of libs/reliability/saga_manager.py on concrete steps.
use multi_ai_agent.Prelude.{
  ℕ, ◌*◌, ◌≡◌, refl, true, none, some, [], ◌∷◌, String, Result, ok, err, ◌⊎◌,
}
use multi_ai_agent.Prelude.Dict
use multi_ai_agent.Reliability.SagaManager.{
  SagaStep, SagaStepStatus, SagaExecution, SagaStatus, Counters, execute_saga, run_steps,
  execute_step, compensate_below,
}
use multi_ai_agent.Reliability.SagaManager.Outcomes.{Succeeded, RolledBack, execute_saga_outcome}
use multi_ai_agent.Reliability.SagaManager.Registry.{
  SagaManager, cancel_saga, run_task, cleanup_completed_sagas,
}
use multi_ai_agent.Reliability.SagaManager.Registry.Cleanup.{
  unless_old, get-cleanup_completed_sagas,
}
use multi_ai_agent.Reliability.SagaManager.Registry.Cancel.{cancelled_saga_completes}

abbrev step : String → Result String ℕ → SagaStep ℕ
step id outcome = record {
  step_id = id;
  execute = outcome;
  compensation = some (ok true);
  tool_compensate = ok true;
  status = SagaStepStatus.pending;
  result = none;
  error = none;
}

abbrev no_sagas : Counters
no_sagas = record { total_sagas = 1; completed_sagas = 0; compensated_sagas = 0; failed_sagas = 0 }

abbrev refund : SagaExecution ℕ
refund = record {
  saga_id = "refund";
  tenant_id = "t";
  workflow_id = "w";
  status = SagaStatus.running;
  steps = step "a" (ok 1) ∷ step "b" (ok 2) ∷ step "c" (err "down") ∷ step "d" (ok 4) ∷ [];
  current_step_index = 0;
  start_time = 0;
  end_time = none;
  error = none;
  compensation_reason = none;
}

refund_log : (execute_saga refund 5 6 no_sagas).log ≡ "b" ∷ "a" ∷ []
unfolding execute_saga run_steps execute_step compensate_below
refund_log = refl

-- counted twice, and shown as compensated
refund_counted :
    let y = execute_saga refund 5 6 no_sagas in
    (y.counters.failed_sagas ≡ 1)
    × (y.counters.compensated_sagas ≡ 1)
    × (y.execution.status ≡ SagaStatus.compensated)
unfolding execute_saga run_steps execute_step compensate_below
refund_counted = (refl, refl, refl)

execute_saga_outcome_example :
    Succeeded refund 5 no_sagas (execute_saga refund 5 6 no_sagas)
    ⊎ RolledBack refund 6 no_sagas (execute_saga refund 5 6 no_sagas)
execute_saga_outcome_example = execute_saga_outcome refund 5 6 no_sagas

abbrev short : SagaExecution ℕ
short = record refund { saga_id = "short"; steps = step "a" (ok 1) ∷ [] }

abbrev manager : SagaManager ℕ
manager = record { active_sagas = ("short", short) ∷ []; counters = no_sagas }

cancelled_saga_completes_example :
    let (m', answer) = cancel_saga manager "short" 3 in
    let m'' = run_task m' "short" 5 6 in
    (answer ≡ ok true)
    × (y : SagaExecution ℕ) × (Dict.get "short" m''.active_sagas ≡ some y)
    × (y.status ≡ SagaStatus.completed)
    × (m''.counters.compensated_sagas ≡ 1)
    × (m''.counters.completed_sagas ≡ 1)
unfolding Dict.get
cancelled_saga_completes_example =
    cancelled_saga_completes manager "short" short (step "a" (ok 1)) [] 3 5 6 refl refl refl refl
      refl ((1, refl), tt)

abbrev old : SagaManager ℕ
old = record manager {
  active_sagas =
      ("short", record short { status = SagaStatus.completed; end_time = some 10 })
      ∷ ("refund", refund)
      ∷ [];
}

get-cleanup_completed_sagas_run :
    Dict.get "short" (cleanup_completed_sagas old 24 90000).active_sagas
    ≡ unless_old (24 * 3600) 90000 (Dict.get "short" old.active_sagas)
unfolding Dict.get
get-cleanup_completed_sagas_run =
    get-cleanup_completed_sagas old 24 90000 "short" (refl, (refl, tt))
