-- ===== src/Clients/Http/CoordinatedCancellation/Runs.antt =====
-- What holds under any order of the operations of libs/clients/http/coordinated_cancellation.py.
use multi_ai_agent.Prelude.{
  ℕ, ◌≡◌, ◌≢◌, refl, sym, ap, subst, ◌∙◌, Option, none, some, List, [], ◌∷◌, String, str_eq, inl,
  inr, Bool-cases, Option-cases, Result, length,
}
use multi_ai_agent.Prelude.Dict.{Dict, get, put, get-put}
use multi_ai_agent.Clients.Http.CoordinatedCancellation.{
  CancellationReason, CancellationRequest, CancellationStats, CancellationManager, failed, init,
  initiate_cancellation, begin_task, finish_task, cancel_request_by_id, Token,
  cleanup_completed_cancellations, find_request, determine_services_to_cancel,
  update_cancellation_stats,
}
use multi_ai_agent.Clients.Http.CoordinatedCancellation.Tenant.{
  cancel_all_tenant_requests, restart, restart_all, is_waiting,
}
use multi_ai_agent.Clients.Http.CoordinatedCancellation.Outcome.{finish_task_outcome}
use multi_ai_agent.Clients.Http.CoordinatedCancellation.Restarted.{begin_task-Begun}

-- The managers that any sequence of the operations and of pieces of tasks makes, whatever the
-- signals return or raise. A task that ends has a token for each service of its request.
pub data Reach : CancellationManager → Type 0 where
  start : Reach init
  initiate :
      {m : CancellationManager} (id request_id tenant_id : String) (reason : CancellationReason)
      (by : String) (services : List String) (now : ℕ)
      → Reach m
      → Reach (initiate_cancellation id request_id tenant_id reason by services now m)
  begin : {m : CancellationManager} (id : String) → Reach m → Reach (begin_task id m).0
  finish :
      {m : CancellationManager} (id : String) (tokens : List Token)
      (signal : String → Result String (Unit {0})) (now : ℕ)
      → ((r : CancellationRequest)
          → get id m.active_cancellations ≡ some r
          → length tokens ≡ length r.services_to_cancel)
      → Reach m
      → Reach (finish_task id tokens signal now m)
  cancel_by_id :
      {m : CancellationManager} (new_id request_id tenant_id : String) (reason : CancellationReason)
      (by : String) (now : ℕ)
      → Reach m
      → Reach (cancel_request_by_id new_id request_id tenant_id reason by now m).0
  cancel_all :
      {m : CancellationManager} (tenant_id : String) (reason : CancellationReason) (by : String)
      → Reach m
      → Reach (cancel_all_tenant_requests tenant_id reason by m).0
  clean_up :
      {m : CancellationManager} (hours : ℕ)
      → Reach m
      → Reach (cleanup_completed_cancellations hours m)

abbrev pub Unfailed : CancellationRequest → Type 0
Unfailed r = (r.error_services ≡ []) × (r.status ≢ failed)

abbrev pub AllUnfailed : Dict CancellationRequest → Type 0
AllUnfailed d = (id : String) (r : CancellationRequest) → get id d ≡ some r → Unfailed r

-- No cancellation has a service with an error, and none is counted as failed.
pub record NeverFails (m : CancellationManager) : Type 0 where
  pub requests : AllUnfailed m.active_cancellations
  pub failures : m.cancellation_stats.failed_cancellations ≡ 0

put-AllUnfailed :
    (k : String) (r : CancellationRequest) (d : Dict CancellationRequest)
    → Unfailed r
    → AllUnfailed d
    → AllUnfailed (put k r d)
put-AllUnfailed k r d u h id s e = elim (Bool-cases (str_eq k id)) [
  | inl p ↦ (let same : r ≡ s = cc (rw (get-put, p) at e) in rw (← same) u)
  | inr p ↦ h id s (rw (get-put, p) at e)
]

abbrev map_some :
    (CancellationRequest → CancellationRequest)
    → Option CancellationRequest
    → Option CancellationRequest
map_some f none = none
map_some f (some r) = some (f r)

get-restart_all :
    (tenant_id : String) (reason : CancellationReason) (by : String) (d : Dict CancellationRequest)
    (id : String)
    → get id (restart_all tenant_id reason by d) ≡ map_some (restart tenant_id reason by) (get id d)
unfolding restart_all get
get-restart_all tenant_id reason by [] id = refl
get-restart_all tenant_id reason by ((j, r) ∷ d) id = elim (Bool-cases (str_eq j id)) [
  | inl p ↦ rw p refl
  | inr p ↦ rw p (get-restart_all tenant_id reason by d id)
]

restart-Unfailed :
    (tenant_id : String) (reason : CancellationReason) (by : String) (r : CancellationRequest)
    → Unfailed r
    → Unfailed (restart tenant_id reason by r)
restart-Unfailed tenant_id reason by r u = elim (Bool-cases (is_waiting tenant_id r)) [
  | inl p ↦ rw p u
  | inr p ↦ rw p u
]

restart_all-AllUnfailed :
    (tenant_id : String) (reason : CancellationReason) (by : String) (d : Dict CancellationRequest)
    → AllUnfailed d
    → AllUnfailed (restart_all tenant_id reason by d)
restart_all-AllUnfailed tenant_id reason by d h id s e = elim (Option-cases (get id d)) [
  | inl p ↦ cc (rw (get-restart_all, p) at e)
  | inr (r, p) ↦
      (let same : restart tenant_id reason by r ≡ s = cc (rw (get-restart_all, p) at e) in
        rw (← same) (restart-Unfailed tenant_id reason by r (h id r p)))
]

initiate-NeverFails :
    (m : CancellationManager) (id request_id tenant_id : String) (reason : CancellationReason)
    (by : String) (services : List String) (now : ℕ)
    → NeverFails m
    → NeverFails (initiate_cancellation id request_id tenant_id reason by services now m)
unfolding initiate_cancellation
initiate-NeverFails m id request_id tenant_id reason by services now h = record {
  requests = put-AllUnfailed id _ m.active_cancellations (refl, λ e. cc) h.requests;
  failures = h.failures;
}

begin_task-NeverFails :
    (m : CancellationManager) (id : String) → NeverFails m → NeverFails (begin_task id m).0
unfolding begin_task
begin_task-NeverFails m id h = elim (Option-cases (get id m.active_cancellations)) [
  | inl e ↦ rw (begin_task, e) h
  | inr (r, e) ↦
      (let begun = begin_task-Begun id r m e in
        record {
          requests = subst AllUnfailed (sym begun.active) (
              put-AllUnfailed id _ m.active_cancellations ((h.requests id r e).0, λ p. cc)
                h.requests);
          failures =
              ap (λ (s : CancellationStats). s.failed_cancellations) begun.stats ∙ h.failures;
        })
]

finish_task-NeverFails :
    (m : CancellationManager) (id : String) (tokens : List Token)
    (signal : String → Result String (Unit {0})) (now : ℕ)
    → ((r : CancellationRequest)
        → get id m.active_cancellations ≡ some r
        → length tokens ≡ length r.services_to_cancel)
    → NeverFails m
    → NeverFails (finish_task id tokens signal now m)
unfolding finish_task update_cancellation_stats
finish_task-NeverFails m id tokens signal now sizes h =
    elim (Option-cases (get id m.active_cancellations)) [
      | inl e ↦ rw (finish_task, e) h
      | inr (r, e) ↦
          (let unfailed = h.requests id r e in
            let (active, stats) =
              finish_task_outcome id tokens signal now m r e unfailed.0 (sizes r e) in
            record {
              requests =
                  subst AllUnfailed (sym active)
                    (put-AllUnfailed id _ m.active_cancellations (unfailed.0, λ p. cc) h.requests);
              failures = ap (λ (s : CancellationStats). s.failed_cancellations) stats ∙ h.failures;
            })
    ]

cancel_by_id-NeverFails :
    (m : CancellationManager) (new_id request_id tenant_id : String) (reason : CancellationReason)
    (by : String) (now : ℕ)
    → NeverFails m
    → NeverFails (cancel_request_by_id new_id request_id tenant_id reason by now m).0
unfolding cancel_request_by_id
cancel_by_id-NeverFails m new_id request_id tenant_id reason by now h =
    elim (Option-cases (find_request request_id tenant_id m.active_cancellations)) [
      | inr (r, e) ↦ rw (cancel_request_by_id, e) h
      | inl e ↦
          rw (cancel_request_by_id, e)
            (initiate-NeverFails m new_id request_id tenant_id reason by
              determine_services_to_cancel now h)
    ]

-- Under any order of the operations and of the pieces of their tasks, whatever the signals to the
-- services return or raise, no cancellation lists a service with an error or has the status FAILED,
-- and none is counted as failed.
pub Reach-NeverFails : {m : CancellationManager} → Reach m → NeverFails m
unfolding get cancel_request_by_id cancel_all_tenant_requests cleanup_completed_cancellations
Reach-NeverFails start = record { requests = λ id r e. cc; failures = refl }
Reach-NeverFails (initiate {m} id request_id tenant_id reason by services now r) =
    initiate-NeverFails m id request_id tenant_id reason by services now (Reach-NeverFails r)
Reach-NeverFails (begin {m} id r) = begin_task-NeverFails m id (Reach-NeverFails r)
Reach-NeverFails (finish {m} id tokens signal now sizes r) =
    finish_task-NeverFails m id tokens signal now sizes (Reach-NeverFails r)
Reach-NeverFails (cancel_by_id {m} new_id request_id tenant_id reason by now r) =
    cancel_by_id-NeverFails m new_id request_id tenant_id reason by now (Reach-NeverFails r)
Reach-NeverFails (cancel_all {m} tenant_id reason by r) =
    let h = Reach-NeverFails r in
    record {
      requests = restart_all-AllUnfailed tenant_id reason by m.active_cancellations h.requests;
      failures = h.failures;
    }
Reach-NeverFails (clean_up hours r) = Reach-NeverFails r
