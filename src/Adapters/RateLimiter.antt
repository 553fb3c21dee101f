-- ===== src/Adapters/RateLimiter.antt =====
-- libs/adapters/rate_limiter.py. Times and the window are whole milliseconds, the rate is a whole
-- number of requests per second, and tokens are counted in thousandths, so that a millisecond adds
-- exactly `requests_per_second` of them. The time passed since the last refill is exact while the
-- clock does not go back, which the theorems about it state.
pub mod Bounds
pub mod Bucket
pub mod Window
use multi_ai_agent.Prelude.{
  ℕ, zero, suc, ◌+◌, ◌-◌, ◌*◌, min, Bool, true, false, not, List, [], ◌∷◌, ◌++◌, String, leb, ltb,
  if◌then◌else◌, Result, ok, err, filter, length, Option, none, some,
}

pub data RateLimitStrategy : Type 0 where
  token_bucket : RateLimitStrategy
  sliding_window : RateLimitStrategy
  fixed_window : RateLimitStrategy

pub record RateLimitConfig : Type 0 where
  pub requests_per_second : ℕ
  pub burst_size : ℕ
  pub strategy : RateLimitStrategy
  pub window_size : ℕ

pub record RateLimiter : Type 0 where
  pub name : String
  pub config : RateLimitConfig
  pub tokens : ℕ
  pub last_refill : ℕ
  pub request_times : List ℕ
  pub window_start : ℕ
  pub window_requests : ℕ
  pub total_requests : ℕ
  pub allowed_requests : ℕ
  pub rejected_requests : ℕ

-- `now` is the time of both clock reads of the constructor
unfoldable pub init : String → RateLimitConfig → ℕ → RateLimiter
init name config now = record {
  name = name;
  config = config;
  tokens = 1000 * config.burst_size;
  last_refill = now;
  request_times = [];
  window_start = now;
  window_requests = 0;
  total_requests = 0;
  allowed_requests = 0;
  rejected_requests = 0;
}

-- `n < requests_per_second * window_size`, times a thousand
abbrev pub under_limit : RateLimitConfig → ℕ → Bool
under_limit c n = ltb (1000 * n) (c.requests_per_second * c.window_size)

unfoldable pub token_bucket_allow : RateLimiter → ℕ → RateLimiter × Bool
token_bucket_allow r now =
    let tokens_to_add = (now - r.last_refill) * r.config.requests_per_second in
    let r' = record r {
      tokens = min (r.tokens + tokens_to_add) (1000 * r.config.burst_size);
      last_refill = now;
    } in
    if leb 1000 r'.tokens then (record r' { tokens = r'.tokens - 1000 }, true) else (r', false)

-- `t > now - window_size`
abbrev pub in_window : ℕ → ℕ → ℕ → Bool
in_window window_size now t = ltb now (t + window_size)

unfoldable pub sliding_window_allow : RateLimiter → ℕ → RateLimiter × Bool
sliding_window_allow r now =
    let recent = filter (in_window r.config.window_size now) r.request_times in
    if under_limit r.config (length recent)
    then (record r { request_times = recent ++ now ∷ [] }, true)
    else (record r { request_times = recent }, false)

unfoldable pub fixed_window_allow : RateLimiter → ℕ → RateLimiter × Bool
fixed_window_allow r now =
    let r' =
      (if leb (r.window_start + r.config.window_size) now
        then record r { window_start = now; window_requests = 0 }
        else r) in
    if under_limit r'.config r'.window_requests
    then (record r' { window_requests = r'.window_requests + 1 }, true)
    else (r', false)

abbrev allow_by : RateLimitStrategy → RateLimiter → ℕ → RateLimiter × Bool
allow_by token_bucket r now = token_bucket_allow r now
allow_by sliding_window r now = sliding_window_allow r now
allow_by fixed_window r now = fixed_window_allow r now

unfoldable pub allow_request : RateLimiter → ℕ → RateLimiter × Bool
unfolding token_bucket_allow sliding_window_allow fixed_window_allow
allow_request r now =
    let r' = record r { total_requests = r.total_requests + 1 } in
    allow_by r'.config.strategy r' now

pub data LimitError {ℓ} (E : Type ℓ) : Type ℓ where
  raised : E → LimitError E
  rate_limit_exceeded : LimitError E

module _ {ℓ κ} {E : Type ℓ} {A : Type κ} where
  abbrev pub pass_on : Result E A → Result (LimitError E) A
  pass_on (ok a) = ok a
  pass_on (err e) = err (raised e)

  -- `execute`, with what its function does if it is called
  unfoldable pub execute : RateLimiter → ℕ → Result E A → RateLimiter × Result (LimitError E) A
  unfolding allow_request
  execute r now outcome =
      let (r', allowed) = allow_request r now in
      if allowed
      then (record r' { allowed_requests = r'.allowed_requests + 1 }, pass_on outcome)
      else (record r' { rejected_requests = r'.rejected_requests + 1 }, err rate_limit_exceeded)

pub record Stats : Type 0 where
  pub name : String
  pub total_requests : ℕ
  pub allowed_requests : ℕ
  pub rejected_requests : ℕ
  -- numerator and denominator; 0 / 1 before the first request
  pub acceptance_rate : ℕ × ℕ
  pub current_tokens : Option ℕ
  pub window_requests : Option ℕ
  pub config : RateLimitConfig

abbrev only_bucket : RateLimitStrategy → ℕ → Option ℕ
only_bucket token_bucket n = some n
only_bucket _ n = none

abbrev only_fixed : RateLimitStrategy → ℕ → Option ℕ
only_fixed fixed_window n = some n
only_fixed _ n = none

unfoldable pub get_stats : RateLimiter → Stats
get_stats r = record {
  name = r.name;
  total_requests = r.total_requests;
  allowed_requests = r.allowed_requests;
  rejected_requests = r.rejected_requests;
  acceptance_rate =
      if ltb 0 r.total_requests then (r.allowed_requests, r.total_requests) else (0, 1);
  current_tokens = only_bucket r.config.strategy r.tokens;
  window_requests = only_fixed r.config.strategy r.window_requests;
  config = r.config;
}

unfoldable pub reset_stats : RateLimiter → RateLimiter
reset_stats r = record r { total_requests = 0; allowed_requests = 0; rejected_requests = 0 }
