-- ===== src/Clients/Http/RequestHedging.antt =====
-- libs/clients/http/request_hedging.py. Times are milliseconds, savings thousandths of a dollar. The
-- headers and the data of a request, the text of a response, the total latency, the costs allowed and
-- the mark of a cancelled request, which nothing reads, are left out. The name HedgingResult is
-- declared twice, so that it names the dataclass (`member`). What the HTTP client answers, and the
-- order in which parallel requests complete, are arguments.
pub mod Strategies
pub mod Raises
use Prim.Native.String.{◌++◌ as ◌++ₛ◌}
use multi_ai_agent.Prelude.{
  ℕ, zero, suc, ◌+◌, ◌*◌, Bool, true, false, not, ◌&&◌, Option, none, some, List, [], ◌∷◌, ◌++◌,
  String, str_eq, ltb, leb, ◌==◌, if◌then◌else◌, Result, ok, err, length, is_some, map,
}
use multi_ai_agent.Prelude.Dict.{Dict, get, put, remove}

pub data HedgingStrategy : Type 0 where
  parallel staggered adaptive : HedgingStrategy

-- the first class of the name HedgingResult
pub data ResultType : Type 0 where
  first_win hedge_win cancelled all_failed : ResultType

pub data HedgingError : Type 0 where
  attribute_error : HedgingError

-- `HedgingResult.FIRST_WIN` and the like: the name stands for the dataclass, which has no such
-- attribute.
unfoldable pub member : ResultType → Result HedgingError ResultType
member t = err attribute_error

pub record HedgingConfig : Type 0 where
  pub max_parallel_requests : ℕ
  pub hedge_delay_ms : ℕ
  pub timeout_ms : ℕ
  pub cancel_others_on_first_success : Bool
  pub strategy : HedgingStrategy

pub record HedgingRequest : Type 0 where
  pub request_id : String
  pub url : String
  pub method : String
  pub timeout : ℕ

pub record HedgingResponse : Type 0 where
  pub request_id : String
  pub status_code : ℕ
  pub latency_ms : ℕ
  pub success : Bool
  pub error : Option String

pub record HedgingResult : Type 0 where
  pub result_type : ResultType
  pub winning_response : Option HedgingResponse
  pub all_responses : List HedgingResponse
  pub cost_multiplier : ℕ
  pub hedged_requests_count : ℕ

pub record HedgingStats : Type 0 where
  pub total_hedged_requests : ℕ
  pub first_wins : ℕ
  pub hedge_wins : ℕ
  pub cancelled_requests : ℕ
  pub all_failed_requests : ℕ
  pub total_cost_savings : ℕ

pub record RequestHedgingManager : Type 0 where
  pub hedging_config : HedgingConfig
  pub active_requests : Dict (List HedgingRequest)
  pub hedging_stats : HedgingStats

abbrev pub no_stats : HedgingStats
no_stats = record {
  total_hedged_requests = 0;
  first_wins = 0;
  hedge_wins = 0;
  cancelled_requests = 0;
  all_failed_requests = 0;
  total_cost_savings = 0;
}

abbrev pub init : RequestHedgingManager
init = record {
  hedging_config = record {
    max_parallel_requests = 2;
    hedge_delay_ms = 50;
    timeout_ms = 5000;
    cancel_others_on_first_success = true;
    strategy = staggered;
  };
  active_requests = [];
  hedging_stats = no_stats;
}

-- A timeout of 0 is taken as none.
abbrev timeout_or : ℕ → Option ℕ → ℕ
timeout_or t none = t
timeout_or t (some zero) = t
timeout_or t (some (suc n)) = suc n

unfoldable pub create_hedging_requests :
    (ℕ → String)
    → HedgingConfig
    → String
    → String
    → Option ℕ
    → ℕ
    → List String
    → List HedgingRequest
create_hedging_requests str config hedging_id method timeout i [] = []
create_hedging_requests str config hedging_id method timeout i (url ∷ urls) =
    record {
      request_id = hedging_id ++ₛ ("_" ++ₛ str i);
      url = url;
      method = method;
      timeout = timeout_or config.timeout_ms timeout;
    }
    ∷ create_hedging_requests str config hedging_id method timeout (suc i) urls

pub data Answer : Type 0 where
  -- the status and the latency
  replies : ℕ → ℕ → Answer
  times_out : Answer
  fails : String → Answer

abbrev pub failure : String → ℕ → ℕ → String → HedgingResponse
failure id status latency message = record {
  request_id = id;
  status_code = status;
  latency_ms = latency;
  success = false;
  error = some message;
}

-- With a client from the factory nothing binds `response_data`, and its use raises. `unbound` is the
-- message of that exception.
unfoldable pub execute_single_request :
    Bool → String → (String → Answer) → HedgingRequest → HedgingResponse
execute_single_request factory unbound answer r = elim (answer r.request_id) [
  | replies status latency ↦ if factory then failure r.request_id 500 0 unbound else record {
    request_id = r.request_id;
    status_code = status;
    latency_ms = latency;
    success = leb 200 status && ltb status 300;
    error = none;
  }
  | times_out ↦ failure r.request_id 408 r.timeout "Request timeout"
  | fails message ↦ failure r.request_id 500 0 message
]
