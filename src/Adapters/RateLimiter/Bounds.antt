-- ===== src/Adapters/RateLimiter/Bounds.antt =====
-- What every request keeps, with any of the strategies.
use multi_ai_agent.Prelude.{
  ℕ, ◌+◌, ◌*◌, ◌≤◌, ◌<◌, ◌≡◌, [], ◌∷◌, length, length-append, length-filter-le, filter, Result,
  arith, String,
}
use multi_ai_agent.Adapters.RateLimiter.{RateLimiter, RateLimitConfig, init, in_window, execute}

pub record Inv (r : RateLimiter) : Type 0 where
  pub accounted : r.total_requests ≡ r.allowed_requests + r.rejected_requests
  pub within_burst : r.tokens ≤ 1000 * r.config.burst_size
  pub sliding_below :
      1000 * length r.request_times < r.config.requests_per_second * r.config.window_size + 1000
  pub fixed_below :
      1000 * r.window_requests < r.config.requests_per_second * r.config.window_size + 1000

-- A new limiter has the invariant.
pub init-Inv : (name : String) (config : RateLimitConfig) (now : ℕ) → Inv (init name config now)
unfolding init
init-Inv name config now = ground arith

module _ {E A : Type 0} where
  -- With every strategy, at any time and whatever the function does, a request keeps the invariant:
  -- each request is counted as allowed or rejected, the tokens stay within the burst size, and each
  -- kind of window holds at most the limit, rounded up.
  pub execute-Inv :
      (r : RateLimiter) (now : ℕ) (outcome : Result E A) → Inv r → Inv (execute r now outcome).0
  unfolding execute
  execute-Inv r now outcome v = ground (
    arith,
    length-filter-le (in_window r.config.window_size now) r.request_times,
    length-append (filter (in_window r.config.window_size now) r.request_times) (now ∷ []),
  )
