-- ===== src/Clients/Http/CoordinatedCancellation/Tenant.antt =====
-- The operations on all requests of a tenant, and the queries, of
-- libs/clients/http/coordinated_cancellation.py. A rate is its two parts.
use multi_ai_agent.Prelude.{
  ℕ, zero, ◌*◌, Bool, true, false, ◌&&◌, Option, none, some, List, [], ◌∷◌, ◌++◌, String, str_eq,
  length, if◌then◌else◌,
}
use multi_ai_agent.Prelude.Dict.{Dict, get}
use multi_ai_agent.Clients.Http.CoordinatedCancellation.{
  CancellationReason, CancellationStatus, pending, CancellationRequest, CancellationStats,
  CancellationManager,
}

abbrev pub is_pending : CancellationStatus → Bool
is_pending pending = true
is_pending _ = false

-- a request of the tenant that no task has begun
abbrev pub is_waiting : String → CancellationRequest → Bool
is_waiting tenant_id r = str_eq r.tenant_id tenant_id && is_pending r.status

abbrev pub restart :
    String → CancellationReason → String → CancellationRequest → CancellationRequest
restart tenant_id reason initiated_by r =
    if is_waiting tenant_id r then record r { reason = reason; initiated_by = initiated_by } else r

unfoldable pub restart_all :
    String → CancellationReason → String → Dict CancellationRequest → Dict CancellationRequest
restart_all tenant_id reason initiated_by [] = []
restart_all tenant_id reason initiated_by ((id, r) ∷ rest) =
    (id, restart tenant_id reason initiated_by r) ∷ restart_all tenant_id reason initiated_by rest

unfoldable pub waiting_ids : String → Dict CancellationRequest → List String
waiting_ids tenant_id [] = []
waiting_ids tenant_id ((id, r) ∷ rest) =
    let later = waiting_ids tenant_id rest in
    if is_waiting tenant_id r then r.cancellation_id ∷ later else later

unfoldable pub cancel_all_tenant_requests :
    String → CancellationReason → String → CancellationManager → CancellationManager × List String
cancel_all_tenant_requests tenant_id reason initiated_by m =
    let ids = waiting_ids tenant_id m.active_cancellations in
    (
      record m {
        active_cancellations = restart_all tenant_id reason initiated_by m.active_cancellations;
        tasks = m.tasks ++ ids;
      },
      ids,
    )

-- a hundredfold of the first part over the second, and 0 where there is no second
abbrev rate : ℕ → ℕ → ℕ × ℕ
rate part zero = (0, 1)
rate part whole = (part * 100, whole)

pub record Status : Type 0 where
  pub request : CancellationRequest
  pub success_rate : ℕ × ℕ

unfoldable pub get_cancellation_status : String → CancellationManager → Option Status
get_cancellation_status id m = elim (get id m.active_cancellations) [
  | none ↦ none
  | some r ↦ some (record {
    request = r;
    success_rate = rate (length r.cancelled_services) (length r.services_to_cancel);
  })
]

pub record StatsReport : Type 0 where
  pub stats : CancellationStats
  pub success_rate : ℕ × ℕ
  pub active_cancellations : ℕ

unfoldable pub get_cancellation_stats : CancellationManager → StatsReport
get_cancellation_stats m =
    let s = m.cancellation_stats in
    record {
      stats = s;
      success_rate = rate s.successful_cancellations s.total_cancellations;
      active_cancellations = length m.active_cancellations;
    }
