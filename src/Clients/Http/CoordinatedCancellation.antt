-- ===== src/Clients/Http/CoordinatedCancellation.antt =====
-- libs/clients/http/coordinated_cancellation.py. A task runs in two pieces, since it awaits the
-- signals to the services in between: `begin_task` and `finish_task`. What a signal does is a
-- parameter: it returns or raises. New ids are arguments.
pub mod Tenant
pub mod Outcome
pub mod Restarted
pub mod Runs
use multi_ai_agent.Prelude.{
  ℕ, suc, ◌+◌, ◌*◌, ◌<◌, Bool, true, false, not, ◌&&◌, ◌||◌, Option, none, some, List, [], ◌∷◌,
  ◌++◌, String, str_eq, if◌then◌else◌, Result, ok, err, length, get_elem?, set, filter, map, ltb,
}
use multi_ai_agent.Prelude.Dict.{Dict, get, put}
use multi_ai_agent.Prelude.Counts.{increment, increment_all}

pub data CancellationReason : Type 0 where
  user_requested timeout error circuit_breaker resource_exhausted hedge_win workflow_completed :
      CancellationReason

-- `reason.value`
abbrev pub value : CancellationReason → String
value user_requested = "user_requested"
value timeout = "timeout"
value error = "error"
value circuit_breaker = "circuit_breaker"
value resource_exhausted = "resource_exhausted"
value hedge_win = "hedge_win"
value workflow_completed = "workflow_completed"

pub data CancellationStatus : Type 0 where
  pending in_progress completed failed : CancellationStatus

pub record CancellationRequest : Type 0 where
  pub cancellation_id : String
  pub request_id : String
  pub tenant_id : String
  pub reason : CancellationReason
  pub initiated_by : String
  pub initiated_at : ℕ
  pub status : CancellationStatus
  pub services_to_cancel : List String
  pub cancelled_services : List String
  pub error_services : List String

pub record ServiceCancellation : Type 0 where
  pub service_name : String
  pub request_id : String
  pub cancelled : Bool
  pub cancelled_at : Option ℕ
  pub error_text : Option String

pub record CancellationStats : Type 0 where
  pub total_cancellations : ℕ
  pub successful_cancellations : ℕ
  pub failed_cancellations : ℕ
  pub cancellations_by_reason : Dict ℕ
  pub cancellations_by_service : Dict ℕ

pub record CancellationManager : Type 0 where
  pub active_cancellations : Dict CancellationRequest
  pub service_cancellations : Dict (List ServiceCancellation)
  pub cancellation_stats : CancellationStats
  -- the tasks created, by the id of their cancellation
  pub tasks : List String

abbrev pub init : CancellationManager
init = record {
  active_cancellations = [];
  service_cancellations = [];
  cancellation_stats = record {
    total_cancellations = 0;
    successful_cancellations = 0;
    failed_cancellations = 0;
    cancellations_by_reason = [];
    cancellations_by_service = [];
  };
  tasks = [];
}

abbrev pub create_task : String → CancellationManager → CancellationManager
create_task id m = record m { tasks = m.tasks ++ id ∷ [] }

abbrev pub store : String → CancellationRequest → CancellationManager → CancellationManager
store id r m = record m { active_cancellations = put id r m.active_cancellations }

unfoldable pub initiate_cancellation :
    String
    → String
    → String
    → CancellationReason
    → String
    → List String
    → ℕ
    → CancellationManager
    → CancellationManager
initiate_cancellation cancellation_id request_id tenant_id reason initiated_by services now m =
    create_task cancellation_id (
      store cancellation_id
        (record {
          cancellation_id = cancellation_id;
          request_id = request_id;
          tenant_id = tenant_id;
          reason = reason;
          initiated_by = initiated_by;
          initiated_at = now;
          status = pending;
          services_to_cancel = services;
          cancelled_services = [];
          error_services = [];
        })
        m)

abbrev pub or_empty {ℓ} : {A : Type ℓ} → Option (List A) → List A
or_empty none = []
or_empty (some xs) = xs

-- The service and the place of its record in the list of the service, which only grows.
abbrev pub Token : Type 0
Token = String × ℕ

abbrev pub records_of : String → CancellationManager → List ServiceCancellation
records_of service m = or_empty (get service m.service_cancellations)

-- `_cancel_service_request` up to the signal
unfoldable pub begin_service : String → String → CancellationManager → CancellationManager × Token
begin_service service request_id m =
    let records = records_of service m in
    (
      record m {
        service_cancellations =
            put service
              (records
                ++ record {
                  service_name = service;
                  request_id = request_id;
                  cancelled = false;
                  cancelled_at = none;
                  error_text = none;
                }
                  ∷ [])
              m.service_cancellations;
      },
      (service, length records),
    )

abbrev mark_cancelled : ℕ → ServiceCancellation → ServiceCancellation
mark_cancelled now s = record s { cancelled = true; cancelled_at = some now }

abbrev mark_at : ℕ → ℕ → List ServiceCancellation → List ServiceCancellation
mark_at now i records = elim (get_elem? records i) [
  | none ↦ records
  | some s ↦ set records i (mark_cancelled now s)
]

-- the first record of the request, whichever cancellation it belongs to
abbrev mark_error : String → String → List ServiceCancellation → List ServiceCancellation
mark_error request_id e [] = []
mark_error request_id e (s ∷ records) =
    let rest = mark_error request_id e records in
    if str_eq s.request_id request_id then record s { error_text = some e } ∷ records else s ∷ rest

-- `_cancel_service_request` after the signal, and what it returns: it does not raise
unfoldable pub finish_service :
    Result String (Unit {0}) → Token → String → ℕ → CancellationManager → CancellationManager × Bool
finish_service (ok u) (service, i) request_id now m = (
  record m {
    service_cancellations =
        put service (mark_at now i (records_of service m)) m.service_cancellations;
  },
  true,
)
finish_service (err e) (service, i) request_id now m = (
  record m {
    service_cancellations =
        put service (mark_error request_id e (records_of service m)) m.service_cancellations;
  },
  false,
)

abbrev begin_services :
    List String → String → CancellationManager → CancellationManager × List Token
begin_services [] request_id m = (m, [])
begin_services (s ∷ services) request_id m =
    let (m', token) = begin_service s request_id m in
    let (m'', tokens) = begin_services services request_id m' in (m'', token ∷ tokens)

-- The first piece of `_execute_coordinated_cancellation`: none if the id is not found.
unfoldable pub begin_task : String → CancellationManager → CancellationManager × Option (List Token)
begin_task id m = elim (get id m.active_cancellations) [
  | none ↦ (m, none)
  | some r ↦
      let (m', tokens) =
        begin_services r.services_to_cancel r.request_id
          (store id (record r { status = in_progress }) m) in
      (m', some tokens)
]

-- What the signals to the services return, in the order of the services; an answer that is no
-- exception counts as a cancellation, whatever it is.
unfoldable pub finish_services :
    (String → Result String (Unit {0}))
    → List Token
    → String
    → ℕ
    → CancellationManager
    → CancellationManager × List (Result String Bool)
finish_services signal [] request_id now m = (m, [])
finish_services signal (t ∷ tokens) request_id now m =
    let (m', answer) = finish_service (signal t.0) t request_id now m in
    let (m'', answers) = finish_services signal tokens request_id now m' in
    (m'', ok answer ∷ answers)

abbrev pub process_results :
    List String → List (Result String Bool) → CancellationRequest → CancellationRequest
process_results [] results r = r
process_results (s ∷ services) [] r = r
process_results (s ∷ services) (err e ∷ results) r =
    process_results services results (record r { error_services = r.error_services ++ s ∷ [] })
process_results (s ∷ services) (ok answer ∷ results) r =
    process_results services results
      (record r { cancelled_services = r.cancelled_services ++ s ∷ [] })

abbrev pub final_status : List String → List String → CancellationStatus
final_status cancelled [] = completed
final_status [] (e ∷ errors) = failed
final_status (c ∷ cancelled) (e ∷ errors) = completed

abbrev count_status : CancellationStatus → CancellationStats → CancellationStats
count_status completed s = record s { successful_cancellations = s.successful_cancellations + 1 }
count_status failed s = record s { failed_cancellations = s.failed_cancellations + 1 }
count_status _ s = s

unfoldable pub update_cancellation_stats :
    CancellationRequest → CancellationStats → CancellationStats
update_cancellation_stats r s =
    let s' = count_status r.status (record s { total_cancellations = s.total_cancellations + 1 }) in
    record s' {
      cancellations_by_reason = increment (value r.reason) s'.cancellations_by_reason;
      cancellations_by_service = increment_all r.cancelled_services s'.cancellations_by_service;
    }

abbrev pub conclude : CancellationRequest → CancellationRequest
conclude r = record r { status = final_status r.cancelled_services r.error_services }

-- The second piece. The task keeps the request object that it found, and no operation takes it out
-- of the dict, so that it is read there again.
unfoldable pub finish_task :
    String
    → List Token
    → (String → Result String (Unit {0}))
    → ℕ
    → CancellationManager
    → CancellationManager
finish_task id tokens signal now m = elim (get id m.active_cancellations) [
  | none ↦ m
  | some r ↦
      let (m', results) = finish_services signal tokens r.request_id now m in
      let r' = conclude (process_results r.services_to_cancel results r) in
      record (store id r' m') {
        cancellation_stats = update_cancellation_stats r' m'.cancellation_stats;
      }
]

-- `_determine_services_to_cancel`
abbrev pub determine_services_to_cancel : List String
determine_services_to_cancel =
    "api_gateway" ∷ "router-service" ∷ "llm_service" ∷ "vector_service" ∷ "billing_service" ∷ []

abbrev pub find_request : String → String → Dict CancellationRequest → Option CancellationRequest
find_request request_id tenant_id [] = none
find_request request_id tenant_id ((id, r) ∷ rest) =
    let later = find_request request_id tenant_id rest in
    if str_eq r.request_id request_id && str_eq r.tenant_id tenant_id then some r else later

unfoldable pub cancel_request_by_id :
    String
    → String
    → String
    → CancellationReason
    → String
    → ℕ
    → CancellationManager
    → CancellationManager × String
cancel_request_by_id new_id request_id tenant_id reason initiated_by now m =
    elim (find_request request_id tenant_id m.active_cancellations) [
      | some r ↦ (m, r.cancellation_id)
      | none ↦ (
        initiate_cancellation new_id request_id tenant_id reason initiated_by
            determine_services_to_cancel now m,
        new_id,
      )
    ]

-- `cleanup_completed_cancellations`: `timedelta` is not imported, so that the second line raises, and
-- the exception is only logged.
unfoldable pub cleanup_completed_cancellations : ℕ → CancellationManager → CancellationManager
cleanup_completed_cancellations max_age_hours m = m
