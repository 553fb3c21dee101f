-- ===== src/Clients/Http/CoordinatedCancellation/Outcome.antt =====
-- How a coordinated cancellation ends.
use multi_ai_agent.Prelude.{
  ℕ, suc, ◌≡◌, refl, sym, ap, ◌∙◌, Bool, some, List, [], ◌∷◌, ◌++◌, String, arith, Result, ok, err,
  length, All,
}
use mathlib.Core.List.{append-nil, append_assoc}
use multi_ai_agent.Prelude.Dict.{get, put}
use multi_ai_agent.Clients.Http.CoordinatedCancellation.{
  CancellationRequest, CancellationManager, completed, Token, finish_service, finish_services,
  process_results, update_cancellation_stats, finish_task, conclude, final_status,
}

-- What a task that ends has made of its request: every service counts as cancelled.
abbrev pub with_all : CancellationRequest → CancellationRequest
with_all r = record r {
  status = completed;
  cancelled_services = r.cancelled_services ++ r.services_to_cancel;
}

abbrev IsOk : Result String Bool → Type 0
IsOk r = (b : Bool) × (r ≡ ok b)

module _ (signal : String → Result String (Unit {0})) (request_id : String) (now : ℕ) where
  finish_service-keeps :
      (r : Result String (Unit {0})) (t : Token) (m : CancellationManager)
      → let m' = (finish_service r t request_id now m).0 in
        (m'.active_cancellations ≡ m.active_cancellations)
        × (m'.cancellation_stats ≡ m.cancellation_stats)
  unfolding finish_service
  finish_service-keeps (ok u) t m = (refl, refl)
  finish_service-keeps (err e) t m = (refl, refl)

  pub finish_services-keeps :
      (tokens : List Token) (m : CancellationManager)
      → let (m', results) = finish_services signal tokens request_id now m in
        (m'.active_cancellations ≡ m.active_cancellations)
        × (m'.cancellation_stats ≡ m.cancellation_stats)
        × (length results ≡ length tokens)
        × All IsOk results
  unfolding finish_services
  finish_services-keeps [] m = (refl, refl, refl, tt)
  finish_services-keeps (t ∷ tokens) m =
      let one = finish_service-keeps (signal t.0) t m in
      let rest = finish_services-keeps tokens (finish_service (signal t.0) t request_id now m).0 in
      (rest.0 ∙ one.0, rest.1 ∙ one.1, ap suc rest.2, ((_, refl), rest.3))

pub process_results-ok :
    (services : List String) (results : List (Result String Bool)) (r : CancellationRequest)
    → length results ≡ length services
    → All IsOk results
    → process_results services results r
      ≡ record r { cancelled_services = r.cancelled_services ++ services }
process_results-ok [] results r e h =
    ap (λ (l : List String). record r { cancelled_services = l })
      (sym (append-nil r.cancelled_services))
process_results-ok (s ∷ services) [] r e h = absurd (omega (arith, e))
process_results-ok (s ∷ services) (x ∷ results) r e ((b, p), h) = rw p (
    process_results-ok services results
      (record r { cancelled_services = r.cancelled_services ++ s ∷ [] }) (omega (arith, e)) h
    ∙ ap (λ (l : List String). record r { cancelled_services = l })
        (append_assoc r.cancelled_services (s ∷ []) services))

-- When a task ends, every service of its request counts as cancelled and the request as completed
-- and as a success, whatever the signals to the services return or raise; the request has no
-- service with an error before, and the task has a token for each service.
pub finish_task_outcome :
    (id : String) (tokens : List Token) (signal : String → Result String (Unit {0})) (now : ℕ)
    (m : CancellationManager) (r : CancellationRequest)
    → get id m.active_cancellations ≡ some r
    → r.error_services ≡ []
    → length tokens ≡ length r.services_to_cancel
    → let m' = finish_task id tokens signal now m in
      (m'.active_cancellations ≡ put id (with_all r) m.active_cancellations)
      × (m'.cancellation_stats ≡ update_cancellation_stats (with_all r) m.cancellation_stats)
unfolding finish_task
finish_task_outcome id tokens signal now m r found clean sizes =
    let (active, stats, count, oks) = finish_services-keeps signal r.request_id now tokens m in
    let results = (finish_services signal tokens r.request_id now m).1 in
    let done = process_results-ok r.services_to_cancel results r (count ∙ sizes) oks in
    let ended =
      ap conclude done
      ∙ ap
          (λ (es : List String). record r {
            cancelled_services = r.cancelled_services ++ r.services_to_cancel;
            status = final_status (r.cancelled_services ++ r.services_to_cancel) es;
          })
          clean in
    rw (finish_task, found) (rw (ended, active, stats) (refl, refl))
