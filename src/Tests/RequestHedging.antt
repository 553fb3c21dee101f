-- ===== src/Tests/RequestHedging.antt =====
-- Hedges of libs/clients/http/request_hedging.py over two URLs.
use multi_ai_agent.Prelude.{ℕ, zero, suc, ◌≡◌, refl, true, false, none, List, [], ◌∷◌, String, err}
use multi_ai_agent.Prelude.Dict.{put, remove}
use multi_ai_agent.Clients.Http.RequestHedging.{
  HedgingRequest, HedgingResponse, RequestHedgingManager, HedgingConfig, replies, parallel,
  attribute_error, init, failure, execute_single_request, create_hedging_requests, member,
}
use multi_ai_agent.Clients.Http.RequestHedging.Strategies.{
  hedge_request, update_hedging_config, cancel_hedging_request, get_hedging_stats, find_success,
  until_success, execute_parallel_hedging,
}
use multi_ai_agent.Clients.Http.RequestHedging.Raises.{
  start, hedges, cancels, requests_of, sent_by, hedge_request_raises, hedges_kept,
}

abbrev digit : ℕ → String
digit zero = "0"
digit (suc n) = "1"

abbrev execute : HedgingRequest → HedgingResponse
execute = execute_single_request false "unbound" (λ id. replies 200 30)

abbrev in_order : List HedgingResponse → List HedgingResponse
in_order responses = responses

abbrev urls : List String
urls = "a" ∷ "b" ∷ []

abbrev in_parallel : HedgingConfig
in_parallel = record init.hedging_config { strategy = parallel }

abbrev parallel_manager : RequestHedgingManager
parallel_manager = update_hedging_config in_parallel init

-- all requests are sent, and the answer is lost
parallel_sends_all :
    (hedge_request digit execute in_order "h" urls "GET" none parallel_manager).1
    ≡ "h_0" ∷ "h_1" ∷ []
unfolding hedge_request update_hedging_config create_hedging_requests execute_parallel_hedging
    member find_success until_success execute_single_request
parallel_sends_all = refl

factory_fails :
    (r : HedgingRequest)
    → execute_single_request true "unbound" (λ id. replies 200 30) r
      ≡ failure r.request_id 500 0 "unbound"
unfolding execute_single_request
factory_fails r = refl

hedge_request_raises_example :
    let requests = requests_of digit parallel_manager "h" urls "GET" none in
    hedge_request digit execute in_order "h" urls "GET" none parallel_manager ≡ (
      record parallel_manager {
        active_requests = put "h" requests parallel_manager.active_requests;
      },
      sent_by parallel_manager.hedging_config.strategy requests,
      err attribute_error,
    )
hedge_request_raises_example =
    hedge_request_raises digit execute in_order "h" urls "GET" none parallel_manager

abbrev one : RequestHedgingManager
one = (hedge_request digit execute in_order "h" urls "GET" none init).0

abbrev two : RequestHedgingManager
two = (hedge_request digit execute in_order "k" urls "GET" none one).0

hedges_kept_example :
    let m = (cancel_hedging_request "h" two).0 in
    (m.active_requests
      ≡ remove "h" (
          put "k"
            (requests_of digit one "k" urls "GET" none)
            (put "h" (requests_of digit init "h" urls "GET" none) [])))
    × (get_hedging_stats m ≡ get_hedging_stats init)
hedges_kept_example = hedges_kept (
    cancels "h" (
      hedges digit execute in_order "k" urls "GET" none
        (hedges digit execute in_order "h" urls "GET" none start)))
