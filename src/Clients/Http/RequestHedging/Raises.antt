-- ===== src/Clients/Http/RequestHedging/Raises.antt =====
-- The exceptions of libs/clients/http/request_hedging.py.
use multi_ai_agent.Prelude.{
  ℕ, ◌≡◌, refl, sym, ap, ◌∙◌, Option, none, some, List, [], String, if◌then◌else◌, err, length, map,
  inl, inr, Option-cases,
}
use multi_ai_agent.Prelude.Dict.{Dict, get, put, remove, remove-absent}
use multi_ai_agent.Clients.Http.RequestHedging.{
  HedgingStrategy, parallel, staggered, adaptive, attribute_error, member, HedgingConfig,
  HedgingRequest, HedgingResponse, HedgingStats, RequestHedgingManager, create_hedging_requests,
  init, no_stats,
}
use multi_ai_agent.Clients.Http.RequestHedging.Strategies.{
  hedge_request, update_hedging_config, cancel_hedging_request, get_hedging_stats,
  execute_parallel_hedging, execute_staggered_hedging, execute_adaptive_hedging, request_ids,
  by_strategy, find_success, parallel_result, until_success,
}

-- the requests that a strategy sends
abbrev pub sent_by : HedgingStrategy → List HedgingRequest → List String
sent_by parallel requests = request_ids requests
sent_by staggered requests = []
sent_by adaptive requests = []

parallel_result_raises :
    (winner : Option HedgingResponse) (responses : List HedgingResponse) (n : ℕ)
    → parallel_result winner responses n ≡ err attribute_error
unfolding member
parallel_result_raises none responses n = refl
parallel_result_raises (some winner) responses n = refl

by_strategy_raises :
    (s : HedgingStrategy) (config : HedgingConfig) (execute : HedgingRequest → HedgingResponse)
    (in_order : List HedgingResponse → List HedgingResponse) (requests : List HedgingRequest)
    → by_strategy s config execute in_order requests ≡ (sent_by s requests, err attribute_error)
unfolding member execute_parallel_hedging execute_staggered_hedging execute_adaptive_hedging
by_strategy_raises parallel config execute in_order requests =
    let all = map execute requests in
    let responses =
      if config.cancel_others_on_first_success then until_success (in_order all) else all in
    rw
      (
        execute_parallel_hedging,
        parallel_result_raises (find_success responses) responses (length requests),
      )
      refl
by_strategy_raises staggered config execute in_order requests = refl
by_strategy_raises adaptive config execute in_order requests = refl

abbrev pub requests_of :
    (ℕ → String)
    → RequestHedgingManager
    → String
    → List String
    → String
    → Option ℕ
    → List HedgingRequest
requests_of str m hedging_id urls method timeout =
    create_hedging_requests str m.hedging_config hedging_id method timeout 0 urls

-- Whatever the client answers, a hedge raises an AttributeError and stays among the active ones, and
-- no statistics change. The parallel strategy has then sent all requests, the others none.
pub hedge_request_raises :
    (str : ℕ → String) (execute : HedgingRequest → HedgingResponse)
    (in_order : List HedgingResponse → List HedgingResponse) (hedging_id : String)
    (urls : List String) (method : String) (timeout : Option ℕ) (m : RequestHedgingManager)
    → let requests = requests_of str m hedging_id urls method timeout in
      hedge_request str execute in_order hedging_id urls method timeout m ≡ (
        record m { active_requests = put hedging_id requests m.active_requests },
        sent_by m.hedging_config.strategy requests,
        err attribute_error,
      )
unfolding hedge_request member
hedge_request_raises str execute in_order hedging_id urls method timeout m =
    let requests = requests_of str m hedging_id urls method timeout in
    let raises =
      by_strategy_raises m.hedging_config.strategy m.hedging_config execute in_order requests in
    rw (hedge_request, ap (λ p. p.1) raises, ap (λ p. p.0) raises) refl

-- A manager after any operations, with the hedges that were started and not cancelled by hand.
pub data Runs : Dict (List HedgingRequest) → RequestHedgingManager → Type 0 where
  start : Runs [] init
  hedges :
      {kept : Dict (List HedgingRequest)} {m : RequestHedgingManager} (str : ℕ → String)
      (execute : HedgingRequest → HedgingResponse)
      (in_order : List HedgingResponse → List HedgingResponse) (hedging_id : String)
      (urls : List String) (method : String) (timeout : Option ℕ)
      → Runs kept m
      → Runs
          (put hedging_id (requests_of str m hedging_id urls method timeout) kept)
          (hedge_request str execute in_order hedging_id urls method timeout m).0
  updates :
      {kept : Dict (List HedgingRequest)} {m : RequestHedgingManager} (config : HedgingConfig)
      → Runs kept m
      → Runs kept (update_hedging_config config m)
  cancels :
      {kept : Dict (List HedgingRequest)} {m : RequestHedgingManager} (hedging_id : String)
      → Runs kept m
      → Runs (remove hedging_id kept) (cancel_hedging_request hedging_id m).0

cancel_hedging_request_effect :
    (hedging_id : String) (m : RequestHedgingManager)
    → let m' = (cancel_hedging_request hedging_id m).0 in
      (m'.active_requests ≡ remove hedging_id m.active_requests)
      × (m'.hedging_stats ≡ m.hedging_stats)
unfolding cancel_hedging_request
cancel_hedging_request_effect hedging_id m =
    elim (Option-cases (get hedging_id m.active_requests)) [
      | inr p ↦ rw (cancel_hedging_request, p.1) (refl, refl)
      | inl e ↦
          rw (cancel_hedging_request, e) (sym (remove-absent hedging_id m.active_requests e), refl)
    ]

runs_state :
    {kept : Dict (List HedgingRequest)} {m : RequestHedgingManager}
    → Runs kept m
    → (m.active_requests ≡ kept) × (m.hedging_stats ≡ no_stats)
unfolding update_hedging_config
runs_state start = (refl, refl)
runs_state (hedges {m} str execute in_order hedging_id urls method timeout r) =
    let (active, stats) = runs_state r in
    let raises : _ =
      ap (λ p. p.0) (hedge_request_raises str execute in_order hedging_id urls method timeout m) in
    (
      ap (λ m'. m'.active_requests) raises
          ∙ ap (put hedging_id (requests_of str m hedging_id urls method timeout)) active,
      ap (λ m'. m'.hedging_stats) raises ∙ stats,
    )
runs_state (updates config r) = runs_state r
runs_state (cancels {m} hedging_id r) =
    let (active, stats) = runs_state r in
    let (removed, same) = cancel_hedging_request_effect hedging_id m in
    (removed ∙ ap (remove hedging_id) active, same ∙ stats)

-- After any operations the active hedges are all those started, finished or not, but the ones
-- cancelled by hand, and the statistics report that there was no hedge.
pub hedges_kept :
    {kept : Dict (List HedgingRequest)} {m : RequestHedgingManager}
    → Runs kept m
    → (m.active_requests ≡ kept) × (get_hedging_stats m ≡ get_hedging_stats init)
unfolding get_hedging_stats
hedges_kept r =
    let (active, stats) = runs_state r in
    (active, ap (λ (s : HedgingStats). get_hedging_stats (record init { hedging_stats = s })) stats)
