-- ===== src/Clients/Http/RequestHedging/Strategies.antt =====
-- The strategies and the hedges of libs/clients/http/request_hedging.py. A function that sends
-- requests returns their ids first. A hedge runs without an interruption.
use multi_ai_agent.Prelude.{
  ℕ, zero, suc, ◌+◌, ◌*◌, Bool, true, false, ◌&&◌, Option, none, some, List, [], ◌∷◌, ◌++◌, String,
  ◌==◌, if◌then◌else◌, Result, ok, err, length, is_some, map,
}
use multi_ai_agent.Prelude.Dict.{get, put, remove}
use multi_ai_agent.Clients.Http.RequestHedging.{
  HedgingStrategy, parallel, staggered, adaptive, ResultType, first_win, hedge_win, cancelled,
  all_failed, HedgingError, member, HedgingConfig, HedgingRequest, HedgingResponse, HedgingResult,
  HedgingStats, RequestHedgingManager, create_hedging_requests,
}

-- the result with the type looked up, which may raise
abbrev pub result_of :
    ResultType
    → Option HedgingResponse
    → List HedgingResponse
    → ℕ
    → Result HedgingError HedgingResult
result_of t winner responses n = elim (member t) [
  | ok result_type ↦ ok (record {
    result_type = result_type;
    winning_response = winner;
    all_responses = responses;
    cost_multiplier = n;
    hedged_requests_count = n;
  })
  | err e ↦ err e
]

-- the handler of any exception in a strategy
abbrev or_failed :
    List HedgingResponse → ℕ → Result HedgingError HedgingResult → Result HedgingError HedgingResult
or_failed responses n (ok result) = ok result
or_failed responses n (err e) = result_of all_failed none responses n

-- The responses up to the first success, in the order in which they complete.
unfoldable pub until_success : List HedgingResponse → List HedgingResponse
until_success [] = []
until_success (r ∷ responses) =
    let rest = until_success responses in if r.success then r ∷ [] else r ∷ rest

unfoldable pub find_success : List HedgingResponse → Option HedgingResponse
find_success [] = none
find_success (r ∷ responses) =
    let rest = find_success responses in if r.success then some r else rest

abbrev pub parallel_result :
    Option HedgingResponse → List HedgingResponse → ℕ → Result HedgingError HedgingResult
parallel_result none responses n = result_of all_failed none responses n
parallel_result (some winner) responses n = result_of first_win (some winner) responses n

abbrev pub request_ids : List HedgingRequest → List String
request_ids requests = map (λ (r : HedgingRequest). r.request_id) requests

-- `in_order` sorts the responses by their completion.
unfoldable pub execute_parallel_hedging :
    HedgingConfig
    → (HedgingRequest → HedgingResponse)
    → (List HedgingResponse → List HedgingResponse)
    → List HedgingRequest
    → List String × Result HedgingError HedgingResult
execute_parallel_hedging config execute in_order requests =
    let all = map execute requests in
    let responses =
      if config.cancel_others_on_first_success then until_success (in_order all) else all in
    (
      request_ids requests,
      or_failed [] (length requests)
          (parallel_result (find_success responses) responses (length requests)),
    )

abbrev pub skipped : HedgingRequest → HedgingResponse
skipped r = record {
  request_id = r.request_id;
  status_code = 0;
  latency_ms = 0;
  success = false;
  error = some "Cancelled due to earlier success";
}

-- The winner and the type of the result after a response.
abbrev after_response :
    ℕ
    → HedgingResponse
    → Option HedgingResponse
    → ResultType
    → Result HedgingError (Option HedgingResponse × ResultType)
after_response i response (some winner) t = ok (some winner, t)
after_response i response none t =
    if response.success
    then elim (member (if i == 0 then first_win else hedge_win)) [
      | ok t' ↦ ok (some response, t')
      | err e ↦ err e
    ]
    else ok (none, t)

abbrev Stagger : Type 0
Stagger =
    List String
    × Result (HedgingError × List HedgingResponse)
        (List HedgingResponse × Option HedgingResponse × ResultType)

abbrev sends : String → Stagger → Stagger
sends id (sent, result) = (id ∷ sent, result)

-- The loop: the requests sent, and the responses with the winner and the type, or an exception with
-- the responses before it.
unfoldable pub stagger :
    Bool
    → (HedgingRequest → HedgingResponse)
    → ℕ
    → List HedgingRequest
    → List HedgingResponse
    → Option HedgingResponse
    → ResultType
    → Stagger
stagger cancel_others execute i [] responses winner t = ([], ok (responses, winner, t))
stagger cancel_others execute i (r ∷ requests) responses winner t =
    let skip =
      stagger cancel_others execute (suc i) requests (responses ++ skipped r ∷ []) winner t in
    let responses' = responses ++ execute r ∷ [] in
    if is_some winner && cancel_others then skip else elim (after_response i (execute r) winner t) [
      | ok found ↦
          sends r.request_id
            (stagger cancel_others execute (suc i) requests responses' found.0 found.1)
      | err e ↦ (r.request_id ∷ [], err (e, responses'))
    ]

abbrev stagger_result : ℕ → Stagger → List String × Result HedgingError HedgingResult
stagger_result n (sent, ok (responses, winner, t)) = (
  sent,
  ok (record {
    result_type = t;
    winning_response = winner;
    all_responses = responses;
    cost_multiplier = n;
    hedged_requests_count = n;
  }),
)
stagger_result n (sent, err (e, responses)) = (sent, result_of all_failed none responses n)

-- The first line of the loop's preparation looks up a type.
unfoldable pub execute_staggered_hedging :
    HedgingConfig
    → (HedgingRequest → HedgingResponse)
    → List HedgingRequest
    → List String × Result HedgingError HedgingResult
execute_staggered_hedging config execute requests = elim (member all_failed) [
  | ok t ↦
      stagger_result (length requests)
        (stagger config.cancel_others_on_first_success execute 0 requests [] none t)
  | err e ↦ ([], result_of all_failed none [] (length requests))
]

unfoldable pub execute_adaptive_hedging :
    HedgingConfig
    → (HedgingRequest → HedgingResponse)
    → List HedgingRequest
    → List String × Result HedgingError HedgingResult
execute_adaptive_hedging config execute requests =
    let (sent, result) = execute_staggered_hedging config execute requests in
    (sent, or_failed [] (length requests) result)

abbrev count_result : ResultType → HedgingStats → HedgingStats
count_result first_win s = record s { first_wins = s.first_wins + 1 }
count_result hedge_win s = record s { hedge_wins = s.hedge_wins + 1 }
count_result cancelled s = record s { cancelled_requests = s.cancelled_requests + 1 }
count_result all_failed s = record s { all_failed_requests = s.all_failed_requests + 1 }

abbrev add_savings : Option HedgingResponse → HedgingStats → HedgingStats
add_savings none s = s
add_savings (some winner) s = record s {
  total_cost_savings = s.total_cost_savings + winner.latency_ms;
}

-- The first comparison looks up a type; what it raises is only logged.
unfoldable pub update_hedging_stats : HedgingResult → HedgingStats → HedgingStats
update_hedging_stats result s =
    let s' = record s { total_hedged_requests = s.total_hedged_requests + 1 } in
    elim (member first_win) [
      | ok t ↦ add_savings result.winning_response (count_result result.result_type s')
      | err e ↦ s'
    ]

abbrev pub by_strategy :
    HedgingStrategy
    → HedgingConfig
    → (HedgingRequest → HedgingResponse)
    → (List HedgingResponse → List HedgingResponse)
    → List HedgingRequest
    → List String × Result HedgingError HedgingResult
by_strategy parallel config execute in_order requests =
    execute_parallel_hedging config execute in_order requests
by_strategy staggered config execute in_order requests =
    execute_staggered_hedging config execute requests
by_strategy adaptive config execute in_order requests =
    execute_adaptive_hedging config execute requests

-- The multiplier of no request is 1 here.
abbrev failed_hedge : Result HedgingError HedgingResult
failed_hedge = elim (member all_failed) [
  | ok t ↦ ok (record {
    result_type = t;
    winning_response = none;
    all_responses = [];
    cost_multiplier = 1;
    hedged_requests_count = 0;
  })
  | err e ↦ err e
]

unfoldable pub hedge_request :
    (ℕ → String)
    → (HedgingRequest → HedgingResponse)
    → (List HedgingResponse → List HedgingResponse)
    → String
    → List String
    → String
    → Option ℕ
    → RequestHedgingManager
    → RequestHedgingManager × List String × Result HedgingError HedgingResult
hedge_request str execute in_order hedging_id urls method timeout m =
    let config = m.hedging_config in
    let requests = create_hedging_requests str config hedging_id method timeout 0 urls in
    let m' : RequestHedgingManager = record m {
      active_requests = put hedging_id requests m.active_requests;
    } in
    let (sent, outcome) = by_strategy config.strategy config execute in_order requests in
    elim outcome [
      | ok result ↦ (
        record m' {
          hedging_stats = update_hedging_stats result m'.hedging_stats;
          active_requests = remove hedging_id m'.active_requests;
        },
        sent,
        ok result,
      )
      | err e ↦ (m', sent, failed_hedge)
    ]

unfoldable pub update_hedging_config : HedgingConfig → RequestHedgingManager → RequestHedgingManager
update_hedging_config config m = record m { hedging_config = config }

unfoldable pub cancel_hedging_request :
    String → RequestHedgingManager → RequestHedgingManager × Bool
cancel_hedging_request hedging_id m = elim (get hedging_id m.active_requests) [
  | some requests ↦ (record m { active_requests = remove hedging_id m.active_requests }, true)
  | none ↦ (m, false)
]

-- the counters, and the rates of first wins, hedge wins and both in percent by their two parts
pub record StatsReport : Type 0 where
  pub counters : HedgingStats
  pub first_win_rate : ℕ × ℕ
  pub hedge_win_rate : ℕ × ℕ
  pub success_rate : ℕ × ℕ

abbrev percent : ℕ → ℕ → ℕ × ℕ
percent n zero = (0, 1)
percent n (suc total) = (n * 100, suc total)

unfoldable pub get_hedging_stats : RequestHedgingManager → StatsReport
get_hedging_stats m =
    let s = m.hedging_stats in
    record {
      counters = s;
      first_win_rate = percent s.first_wins s.total_hedged_requests;
      hedge_win_rate = percent s.hedge_wins s.total_hedged_requests;
      success_rate = percent (s.first_wins + s.hedge_wins) s.total_hedged_requests;
    }
