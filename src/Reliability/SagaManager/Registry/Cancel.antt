-- ===== src/Reliability/SagaManager/Registry/Cancel.antt =====
-- A cancellation compensates what has run, and does not stop the task of the saga.
use multi_ai_agent.Prelude.{
  ℕ, suc, ◌+◌, ◌≡◌, refl, ap, ◌∙◌, true, false, none, some, List, [], ◌∷◌, ◌++◌, String, eq_refl,
  inl, inr, ok, err, All, ◌⊎◌,
}
use multi_ai_agent.Prelude.Dict
use multi_ai_agent.Prelude.Dict.{Dict, get-put}
use multi_ai_agent.Reliability.SagaManager.{
  SagaExecution, SagaStep, SagaStatus, SagaStepStatus, execute_saga, compensate_saga,
  needs_compensation, compensate_below, Counters,
}
use multi_ai_agent.Reliability.SagaManager.Outcomes.{execute_saga_outcome, Succeeded}
use multi_ai_agent.Reliability.SagaManager.Registry.{SagaManager, run_task, cancel_saga, is_running}

module _ {R : Type 0} where
  abbrev pub WillReturn : SagaStep R → Type 0
  WillReturn s = (r : R) × (s.execute ≡ ok r)

  not-WillReturn :
      (before : List (SagaStep R)) (s : SagaStep R) (after : List (SagaStep R)) (e : String)
      → All WillReturn (before ++ s ∷ after)
      → ¬ (s.execute ≡ err e)
  not-WillReturn [] s after e ((r, p), h) q = cc
  not-WillReturn (b ∷ before) s after e h q = not-WillReturn before s after e h.1 q

  -- a saga whose steps all return succeeds
  execute_saga-WillReturn :
      (x : SagaExecution R) (now later : ℕ) (c : Counters)
      → All WillReturn x.steps
      → Succeeded x now c (execute_saga x now later c)
  execute_saga-WillReturn x now later c h = elim (execute_saga_outcome x now later c) [
    | inl s ↦ s
    | inr b ↦ absurd (
        not-WillReturn b.stopped.before b.stopped.step b.stopped.after b.exception
          (rw b.stopped.split at h) b.stopped.raises)
  ]

  -- `cancel_saga` is refused for an id that is not there and for a saga that does not run.
  pub cancel_saga_refused :
      (m : SagaManager R) (saga_id : String) (now : ℕ)
      → (Dict.get saga_id m.active_sagas ≡ none)
        ⊎ ((x : SagaExecution R) × (Dict.get saga_id m.active_sagas ≡ some x)
            × (is_running x.status ≡ false))
      → cancel_saga m saga_id now ≡ (m, ok false)
  unfolding cancel_saga
  cancel_saga_refused m saga_id now (inl e) = rw e
  cancel_saga_refused m saga_id now (inr (x, e, s)) = rw (e, s)

  pending_first :
      (s : SagaStep R) (steps : List (SagaStep R))
      → s.status ≡ SagaStepStatus.pending
      → compensate_below 1 (s ∷ steps) ≡ some (s ∷ steps, [])
  unfolding compensate_below
  pending_first s steps p =
      let skip : needs_compensation s ≡ false = rw p in rw (compensate_below, skip)

  abbrev cancelled : SagaExecution R → SagaStep R → List (SagaStep R) → ℕ → SagaExecution R
  cancelled x s steps t = record x {
    steps = s ∷ steps;
    status = SagaStatus.compensated;
    compensation_reason = some "Manually cancelled";
    end_time = some t;
  }

  abbrev after_cancel :
      SagaManager R → String → SagaExecution R → SagaStep R → List (SagaStep R) → ℕ → SagaManager R
  after_cancel m saga_id x s steps t = record m {
    active_sagas = Dict.put saga_id (cancelled x s steps t) m.active_sagas;
    counters = record m.counters { compensated_sagas = m.counters.compensated_sagas + 1 };
  }

  cancel_first :
      (m : SagaManager R) (saga_id : String) (x : SagaExecution R) (s : SagaStep R)
      (steps : List (SagaStep R)) (t : ℕ)
      → Dict.get saga_id m.active_sagas ≡ some x
      → x.status ≡ SagaStatus.running
      → x.steps ≡ s ∷ steps
      → x.current_step_index ≡ 0
      → s.status ≡ SagaStepStatus.pending
      → cancel_saga m saga_id t ≡ (after_cancel m saga_id x s steps t, ok true)
  unfolding cancel_saga compensate_saga
  cancel_first m saga_id x s steps t g r e i p =
      let undo : compensate_below (suc x.current_step_index) x.steps ≡ some (s ∷ steps, []) =
        ap (λ n. compensate_below (suc n) x.steps) i
        ∙ ap (λ l. compensate_below 1 l) e
        ∙ pending_first s steps p in
      let runs : is_running x.status ≡ true = rw r in rw (g, undo, runs)

  get-put_self :
      (k : String) (v : SagaExecution R) (d : Dict (SagaExecution R))
      → Dict.get k (Dict.put k v d) ≡ some v
  get-put_self k v d = simp (get-put, eq_refl)

  run_cancelled :
      (m : SagaManager R) (saga_id : String) (y : SagaExecution R) (now later : ℕ)
      → Dict.get saga_id m.active_sagas ≡ some y
      → All WillReturn y.steps
      → let m' = run_task m saga_id now later in
        (z : SagaExecution R) × (Dict.get saga_id m'.active_sagas ≡ some z)
        × (z.status ≡ SagaStatus.completed)
        × (m'.counters.compensated_sagas ≡ m.counters.compensated_sagas)
        × (m'.counters.completed_sagas ≡ m.counters.completed_sagas + 1)
  unfolding run_task
  run_cancelled m saga_id y now later g h =
      let z = execute_saga y now later m.counters in
      let done = execute_saga-WillReturn y now later m.counters h in
      (
        z.execution,
        rw g (get-put_self saga_id z.execution m.active_sagas),
        done.status,
        rw (g, done.counters),
        rw (g, done.counters),
      )

  -- A saga that is cancelled before the first step of its task runs is marked as compensated and
  -- counted so. Its task then runs all the steps nevertheless: if they return, the saga is marked as
  -- completed, and it is counted as completed too.
  pub cancelled_saga_completes :
      (m : SagaManager R) (saga_id : String) (x : SagaExecution R) (s : SagaStep R)
      (steps : List (SagaStep R)) (t now later : ℕ)
      → Dict.get saga_id m.active_sagas ≡ some x
      → x.status ≡ SagaStatus.running
      → x.steps ≡ s ∷ steps
      → x.current_step_index ≡ 0
      → s.status ≡ SagaStepStatus.pending
      → All WillReturn (s ∷ steps)
      → let (m', answer) = cancel_saga m saga_id t in
        let m'' = run_task m' saga_id now later in
        (answer ≡ ok true)
        × (y : SagaExecution R) × (Dict.get saga_id m''.active_sagas ≡ some y)
        × (y.status ≡ SagaStatus.completed)
        × (m''.counters.compensated_sagas ≡ m.counters.compensated_sagas + 1)
        × (m''.counters.completed_sagas ≡ m.counters.completed_sagas + 1)
  cancelled_saga_completes m saga_id x s steps t now later g r e i p h =
      rw (cancel_first m saga_id x s steps t g r e i p) (
        let (z, found, status, same, more) =
          run_cancelled (after_cancel m saga_id x s steps t) saga_id (cancelled x s steps t) now
            later (get-put_self saga_id (cancelled x s steps t) m.active_sagas) h in
        (refl, z, found, status, same, more))
