-- ===== src/Adapters/Saga/Manager/Metrics.antt =====
-- The counters of the saga manager, and where its sagas go.
use multi_ai_agent.Prelude.{
  ℕ, ◌+◌, ◌≤◌, ◌≡◌, refl, Bool, none, some, List, String, arith, length, if◌then◌else◌, ok, err,
  str_eq, Bool-cases, inl, inr, ◌⊎◌, Option-cases,
}
use multi_ai_agent.Prelude.Dict
use multi_ai_agent.Prelude.Dict.{Dict, get-put, get-remove, length-put, length-remove-lt}
use multi_ai_agent.Adapters.Saga.{Saga, SagaStep, SagaStatus, Effect}
use multi_ai_agent.Adapters.Saga.Manager.{
  SagaManager, create_saga, execute_saga, execute_steps, not_found, finish,
}

module _ {R : Type 0} where
  -- Every saga that was created is completed, compensated, failed or active, and the counter of
  -- active sagas covers the sagas that the manager holds as active.
  pub record Inv (m : SagaManager R) : Type 0 where
    pub accounted :
        m.saga_metrics.total_sagas
        ≡ m.saga_metrics.completed_sagas + m.saga_metrics.compensated_sagas
          + m.saga_metrics.failed_sagas + m.saga_metrics.active_sagas
    pub covered : length m.active_sagas ≤ m.saga_metrics.active_sagas

  pub create_saga-Inv :
      (m : SagaManager R) (saga_id name : String) → Inv m → Inv (create_saga m saga_id name).0
  unfolding create_saga
  create_saga-Inv m saga_id name v =
      ground (arith, length-put saga_id (create_saga m saga_id name).1 m.active_sagas)

  finish-Inv :
      (seen : SagaStep R → ℕ) (m : SagaManager R) (saga_id : String) (saga : Saga R)
      → Inv m
      → Dict.get saga_id m.active_sagas ≡ some saga
      → Inv (finish m saga_id saga (execute_steps seen saga)).0
  finish-Inv seen m saga_id saga v e = elim (Bool-cases (execute_steps seen saga).success) [
    | inl p ↦ rw p (ground (arith, length-remove-lt saga_id m.active_sagas e))
    | inr p ↦ rw p (ground (arith, length-remove-lt saga_id m.active_sagas e))
  ]

  -- The saga has left the active ones and is among the ended ones with the status that `success`
  -- says, completed or compensated; the sagas under other ids are where they were, and the failed
  -- ones are as many as before.
  pub record Ended (m m' : SagaManager R) (saga_id : String) (success : Bool) : Type 0 where
    pub active :
        (j : String)
        → Dict.get j m'.active_sagas
          ≡ (if str_eq saga_id j then none else Dict.get j m.active_sagas)
    pub saga : Saga R
    pub ended :
        (j : String)
        → Dict.get j m'.completed_sagas
          ≡ (if str_eq saga_id j then some saga else Dict.get j m.completed_sagas)
    pub status : saga.status ≡ (if success then SagaStatus.completed else SagaStatus.compensated)
    pub same_failed : m'.saga_metrics.failed_sagas ≡ m.saga_metrics.failed_sagas

  finish-Ended :
      (seen : SagaStep R → ℕ) (m : SagaManager R) (saga_id : String) (saga : Saga R)
      → let run = execute_steps seen saga in
        let (m', success, log) = finish m saga_id saga run in
        (success ≡ run.success) × Ended m m' saga_id success
  finish-Ended seen m saga_id saga = elim (Bool-cases (execute_steps seen saga).success) [
    | inl p ↦ rw p (
      refl,
      record {
        active = λ j. get-remove saga_id j m.active_sagas;
        saga = _;
        ended = λ j. get-put saga_id j _ m.completed_sagas;
        status = refl;
        same_failed = refl;
      },
    )
    | inr p ↦ rw p (
      refl,
      record {
        active = λ j. get-remove saga_id j m.active_sagas;
        saga = _;
        ended = λ j. get-put saga_id j _ m.completed_sagas;
        status = refl;
        same_failed = refl;
      },
    )
  ]

  -- Executing a saga that is active returns whether its steps succeeded, ends it as completed or as
  -- compensated and keeps the account of the counters. An id that is not active is an error.
  pub execute_saga-Ended :
      (seen : SagaStep R → ℕ) (m : SagaManager R) (saga_id : String)
      → Inv m
      → ((Dict.get saga_id m.active_sagas ≡ none)
          × (execute_saga seen m saga_id ≡ err (not_found saga_id)))
        ⊎ ((saga : Saga R) × (m' : SagaManager R) × (success : Bool) × (log : List Effect)
            × (Dict.get saga_id m.active_sagas ≡ some saga)
            × (execute_saga seen m saga_id ≡ ok (m', success, log))
            × (success ≡ (execute_steps seen saga).success)
            × Ended m m' saga_id success
            × Inv m')
  unfolding execute_saga
  execute_saga-Ended seen m saga_id v = elim (Option-cases (Dict.get saga_id m.active_sagas)) [
    | inl e ↦ inl (e, rw e)
    | inr (saga, e) ↦
        (let (m', success, log) = finish m saga_id saga (execute_steps seen saga) in
          let (same, ended) = finish-Ended seen m saga_id saga in
          inr (saga, m', success, log, e, rw e, same, ended, finish-Inv seen m saga_id saga v e))
  ]
