-- ===== src/Tests/TimeoutManager.antt =====
-- The timeouts of libs/clients/http/timeout_manager.py on a slow and an unknown service.
use multi_ai_agent.Prelude.{
  ℕ, zero, suc, ◌+◌, ◌≡◌, refl, some, List, [], ◌∷◌, ◌++◌, String, length, filter, arith,
}
use multi_ai_agent.Prelude.Dict.{get}
use multi_ai_agent.Prelude.Latest.{last_n}
use multi_ai_agent.Clients.Http.TimeoutManager.{
  TimeoutEvent, Operation, TimeoutManager, init, total, read, new_event, times_out, begin_operation,
  handle_timeout, total_duration, count_severity, end_operation, get_timeout_stats, of_type, recent,
  advise_breaker, get_timeout_recommendations, increase_timeout, events_of, connect, write,
  workflow_step, determine_timeout_severity, warning, critical, emergency,
}
use multi_ai_agent.Clients.Http.TimeoutManager.Events.{
  start, begins, runs_out, event_of, events_latest, get_timeout_stats_sums,
}
use multi_ai_agent.Clients.Http.TimeoutManager.Advice.{no_increase}

abbrev at : ℕ → String
at now = "7"

abbrev slow : Operation
slow = record {
  operation_type = "api_gateway";
  timeout_type = total;
  start_time = 7;
  timeout_value_ms = 5000;
}

abbrev after_timeout : TimeoutManager
after_timeout =
    end_operation "api_gateway_7" slow times_out 5017
      (begin_operation at "api_gateway" total 7 init)

after_timeout_event :
    after_timeout.timeout_events ≡ new_event "api_gateway_7" "api_gateway" total 5000 5010 5017 ∷ []
unfolding begin_operation end_operation handle_timeout
after_timeout_event = refl

severities :
    (determine_timeout_severity 5000 5000 ≡ warning)
    × (determine_timeout_severity 5010 5000 ≡ critical)
    × (determine_timeout_severity 10001 5000 ≡ emergency)
unfolding determine_timeout_severity
severities = (refl, refl, refl)

advice_example :
    get_timeout_recommendations "api_gateway" after_timeout ≡ increase_timeout 5000 6012 ∷ []
unfolding get_timeout_recommendations begin_operation end_operation handle_timeout get
    total_duration count_severity determine_timeout_severity
advice_example = refl

events_latest_example :
    after_timeout.timeout_events ≡ last_n 1000 ([] ++ event_of "api_gateway_7" slow 5017 ∷ [])
events_latest_example =
    events_latest (runs_out "api_gateway_7" slow 5017 (begins at "api_gateway" total 7 start))

abbrev event : TimeoutEvent
event = new_event "llm_service_7" "llm_service" read 30000 90000 90007

unfoldable copies : ℕ → List TimeoutEvent
copies zero = []
copies (suc n) = event ∷ copies n

length-copies : (n : ℕ) → length (filter (of_type "llm_service") (copies n)) ≡ n
unfolding copies
length-copies zero = refl
length-copies (suc n) = ground (arith, length-copies n)

abbrev slow_service : TimeoutManager
slow_service = record init { timeout_events = copies 500 }

no_increase_example :
    get_timeout_recommendations "llm_service" slow_service
    ≡ advise_breaker (recent 50 (filter (of_type "llm_service") (copies 500)))
no_increase_example = no_increase "llm_service" slow_service (omega (arith, length-copies 500))

get_timeout_stats_sums_run :
    let stats = get_timeout_stats (some "api_gateway") after_timeout in
    let n = length (events_of (some "api_gateway") after_timeout.timeout_events) in
    (stats.by_type connect
        + stats.by_type read
        + stats.by_type write
        + stats.by_type total
        + stats.by_type workflow_step
      ≡ n)
    × (stats.by_severity warning + stats.by_severity critical + stats.by_severity emergency ≡ n)
get_timeout_stats_sums_run = get_timeout_stats_sums (some "api_gateway") after_timeout
