-- ===== src/Tests/CoordinatedCancellation.antt =====
-- A cancellation of libs/clients/http/coordinated_cancellation.py at two services, one of which fails.
use multi_ai_agent.Prelude.{
  ◌+◌, ◌*◌, ◌≡◌, refl, some, [], ◌∷◌, String, Result, ok, err, str_eq, if◌then◌else◌,
}
use multi_ai_agent.Prelude.Dict.{get, put}
use multi_ai_agent.Prelude.Counts.{count_of, occurrences}
use multi_ai_agent.Clients.Http.CoordinatedCancellation.{
  CancellationRequest, CancellationManager, init, user_requested, pending, completed,
  initiate_cancellation, begin_task, finish_task, update_cancellation_stats, resource_exhausted,
}
use multi_ai_agent.Clients.Http.CoordinatedCancellation.Tenant.{
  cancel_all_tenant_requests, waiting_ids,
}
use multi_ai_agent.Clients.Http.CoordinatedCancellation.Outcome.{with_all, finish_task_outcome}
use multi_ai_agent.Clients.Http.CoordinatedCancellation.Restarted.{run_both, restarted_twice}
use multi_ai_agent.Clients.Http.CoordinatedCancellation.Runs.{
  start, initiate, begin, NeverFails, Reach-NeverFails,
}

abbrev llm_fails : String → Result String (Unit {0})
llm_fails service = if str_eq service "llm_service" then err "no route" else ok tt

abbrev initiated : CancellationManager
initiated =
    initiate_cancellation "c1" "r1" "acme" user_requested "ann"
      ("llm_service" ∷ "billing_service" ∷ []) 5 init

abbrev request : CancellationRequest
request = record {
  cancellation_id = "c1";
  request_id = "r1";
  tenant_id = "acme";
  reason = user_requested;
  initiated_by = "ann";
  initiated_at = 5;
  status = pending;
  services_to_cancel = "llm_service" ∷ "billing_service" ∷ [];
  cancelled_services = [];
  error_services = [];
}

initiated_request : get "c1" initiated.active_cancellations ≡ some request
unfolding initiate_cancellation get put
initiated_request = refl

finish_task_outcome_example :
    let m' =
      finish_task "c1" (("llm_service", 0) ∷ ("billing_service", 0) ∷ []) llm_fails 9 initiated in
    (m'.active_cancellations ≡ put "c1" (with_all request) initiated.active_cancellations)
    × (m'.cancellation_stats
        ≡ update_cancellation_stats (with_all request) initiated.cancellation_stats)
finish_task_outcome_example =
    finish_task_outcome "c1" (("llm_service", 0) ∷ ("billing_service", 0) ∷ []) llm_fails 9
      initiated request initiated_request refl refl

restarted_twice_example :
    let m' = run_both "c1" llm_fails 9 10 initiated in
    (get "c1" m'.active_cancellations
      ≡ some (record request {
        status = completed;
        cancelled_services =
            "llm_service" ∷ "billing_service" ∷ "llm_service" ∷ "billing_service" ∷ [];
      }))
    × (m'.cancellation_stats.total_cancellations
        ≡ initiated.cancellation_stats.total_cancellations + 2)
    × (m'.cancellation_stats.successful_cancellations
        ≡ initiated.cancellation_stats.successful_cancellations + 2)
    × (count_of "llm_service" m'.cancellation_stats.cancellations_by_service
        ≡ count_of "llm_service" initiated.cancellation_stats.cancellations_by_service
          + 3 * occurrences "llm_service" request.services_to_cancel)
restarted_twice_example =
    restarted_twice "c1" llm_fails 9 10 initiated request "llm_service" initiated_request refl refl

Reach-NeverFails_example : NeverFails (begin_task "c1" initiated).0
Reach-NeverFails_example = Reach-NeverFails (
    begin "c1" (
      initiate "c1" "r1" "acme" user_requested "ann" ("llm_service" ∷ "billing_service" ∷ []) 5
        start))

-- `cancel_all_tenant_requests` makes a second task for the cancellation
two_tasks :
    (cancel_all_tenant_requests "acme" resource_exhausted "quota" initiated).0.tasks
    ≡ "c1" ∷ "c1" ∷ []
unfolding cancel_all_tenant_requests initiate_cancellation waiting_ids put
two_tasks = refl
