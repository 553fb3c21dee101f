-- ===== src/Clients/Http/CoordinatedCancellation/Restarted.antt =====
-- What comes of a cancellation of which two tasks run, as `cancel_all_tenant_requests` makes them.
use multi_ai_agent.Prelude.{
  ℕ, suc, ◌+◌, ◌*◌, ◌≡◌, refl, ap, ◌∙◌, some, List, [], ◌∷◌, ◌++◌, String, eq_refl, arith, Result,
  length,
}
use multi_ai_agent.Prelude.Dict.{Dict, get, put, get-put}
use multi_ai_agent.Prelude.Counts.{count_of, occurrences, count_of-increment_all}
use multi_ai_agent.Clients.Http.CoordinatedCancellation.{
  CancellationRequest, CancellationStats, CancellationManager, completed, in_progress, or_empty,
  update_cancellation_stats, finish_task, begin_task, begin_service, begin_services, store,
}
use multi_ai_agent.Clients.Http.CoordinatedCancellation.Outcome.{with_all, finish_task_outcome}

begin_services-keeps :
    (services : List String) (request_id : String) (m : CancellationManager)
    → let (m', tokens) = begin_services services request_id m in
      (m'.active_cancellations ≡ m.active_cancellations)
      × (m'.cancellation_stats ≡ m.cancellation_stats)
      × (length tokens ≡ length services)
unfolding begin_service
begin_services-keeps [] request_id m = (refl, refl, refl)
begin_services-keeps (s ∷ services) request_id m =
    let (active, stats, count) =
      begin_services-keeps services request_id (begin_service s request_id m).0 in
    (active, stats, ap suc count)

-- a task that begins
pub record Begun (id : String) (r : CancellationRequest) (m : CancellationManager) : Type 0 where
  pub active :
      (begin_task id m).0.active_cancellations
      ≡ put id (record r { status = in_progress }) m.active_cancellations
  pub stats : (begin_task id m).0.cancellation_stats ≡ m.cancellation_stats
  pub count : length (or_empty (begin_task id m).1) ≡ length r.services_to_cancel

pub begin_task-Begun :
    (id : String) (r : CancellationRequest) (m : CancellationManager)
    → get id m.active_cancellations ≡ some r
    → Begun id r m
unfolding begin_task
begin_task-Begun id r m found =
    let started = store id (record r { status = in_progress }) m in
    let (a, s, c) = begin_services-keeps r.services_to_cancel r.request_id started in
    record {
      active = rw (begin_task, found) a;
      stats = rw (begin_task, found) s;
      count = rw (begin_task, found) c;
    }

get-put_self :
    (id : String) (r : CancellationRequest) (d : Dict CancellationRequest)
    → get id (put id r d) ≡ some r
get-put_self id r d = simp (get-put, eq_refl)

occurrences-append :
    (k : String) (xs ys : List String)
    → occurrences k (xs ++ ys) ≡ occurrences k xs + occurrences k ys
unfolding occurrences
occurrences-append k [] ys = omega arith
occurrences-append k (x ∷ xs) ys = ground (arith, occurrences-append k xs ys)

module _ (r : CancellationRequest) (fresh : r.cancelled_services ≡ []) where
  abbrev services : List String
  services = r.services_to_cancel

  -- the request after both tasks
  both_listed :
      with_all (with_all (record r { status = in_progress }))
      ≡ record r { status = completed; cancelled_services = services ++ services }
  both_listed =
      ap
        (λ (l : List String). record r {
          status = completed;
          cancelled_services = l ++ services ++ services;
        })
        fresh

  -- the statistics after both tasks
  both_counted :
      (service : String) (s : CancellationStats)
      → let r1 = record r { status = in_progress } in
        let s' =
          update_cancellation_stats
            (with_all (with_all r1))
            (update_cancellation_stats (with_all r1) s) in
        (s'.total_cancellations ≡ s.total_cancellations + 2)
        × (s'.successful_cancellations ≡ s.successful_cancellations + 2)
        × (count_of service s'.cancellations_by_service
            ≡ count_of service s.cancellations_by_service + 3 * occurrences service services)
  unfolding update_cancellation_stats
  both_counted service s = (
    omega arith,
    omega arith,
    rw (count_of-increment_all, count_of-increment_all)
        (rw fresh (rw (occurrences-append service services services) (omega arith))),
  )

module _ (id : String) (signal : String → Result String (Unit {0})) (now later : ℕ) where
  abbrev pub run_both : CancellationManager → CancellationManager
  run_both m =
      let (m1, t1) = begin_task id m in
      let (m2, t2) = begin_task id m1 in
      finish_task id (or_empty t2) signal later (finish_task id (or_empty t1) signal now m2)

-- Two tasks of one cancellation that run side by side cancel every service twice: each is listed
-- twice, the request is counted as two cancellations and as two successes, and each service is
-- counted three times, whatever the signals return or raise.
pub restarted_twice :
    (id : String) (signal : String → Result String (Unit {0})) (now later : ℕ)
    (m : CancellationManager) (r : CancellationRequest) (service : String)
    → get id m.active_cancellations ≡ some r
    → r.cancelled_services ≡ []
    → r.error_services ≡ []
    → let m' = run_both id signal now later m in
      (get id m'.active_cancellations
        ≡ some (record r {
          status = completed;
          cancelled_services = r.services_to_cancel ++ r.services_to_cancel;
        }))
      × (m'.cancellation_stats.total_cancellations ≡ m.cancellation_stats.total_cancellations + 2)
      × (m'.cancellation_stats.successful_cancellations
          ≡ m.cancellation_stats.successful_cancellations + 2)
      × (count_of service m'.cancellation_stats.cancellations_by_service
          ≡ count_of service m.cancellation_stats.cancellations_by_service
            + 3 * occurrences service r.services_to_cancel)
restarted_twice id signal now later m r service found fresh clean =
    let b1 = begin_task-Begun id r m found in
    let m1 = (begin_task id m).0 in
    let r1 = record r { status = in_progress } in
    let found1 = ap (get id) b1.active ∙ get-put_self id r1 m.active_cancellations in
    let b2 = begin_task-Begun id r1 m1 found1 in
    let m2 = (begin_task id m1).0 in
    let found2 = ap (get id) b2.active ∙ get-put_self id r1 m1.active_cancellations in
    let (a3, s3) =
      finish_task_outcome id (or_empty (begin_task id m).1) signal now m2 r1 found2 clean
        b1.count in
    let m3 = finish_task id (or_empty (begin_task id m).1) signal now m2 in
    let found3 = ap (get id) a3 ∙ get-put_self id (with_all r1) m2.active_cancellations in
    let (a4, s4) =
      finish_task_outcome id (or_empty (begin_task id m1).1) signal later m3 (with_all r1) found3
        clean b2.count in
    let counted =
      s4
      ∙ ap (update_cancellation_stats _)
          (s3 ∙ ap (update_cancellation_stats _) (b2.stats ∙ b1.stats)) in
    let (total, successful, by_service) = both_counted r fresh service m.cancellation_stats in
    (
      ap (get id) a4
          ∙ get-put_self id (with_all (with_all r1)) m3.active_cancellations
          ∙ ap some (both_listed r fresh),
      ap (λ (s : CancellationStats). s.total_cancellations) counted ∙ total,
      ap (λ (s : CancellationStats). s.successful_cancellations) counted ∙ successful,
      ap (λ (s : CancellationStats). count_of service s.cancellations_by_service) counted
          ∙ by_service,
    )
