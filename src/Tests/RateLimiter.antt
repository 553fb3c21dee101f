-- ===== src/Tests/RateLimiter.antt =====
-- The rate limiter of libs/adapters/rate_limiter.py on concrete requests.
use multi_ai_agent.Prelude.{
  ℕ, ◌+◌, ◌*◌, ◌-◌, ◌≤◌, ◌≡◌, refl, true, false, [], ◌∷◌, String, ok, arith,
}
use multi_ai_agent.Adapters.RateLimiter.{
  RateLimitConfig, token_bucket, sliding_window, init, execute, token_bucket_allow,
  sliding_window_allow,
}
use multi_ai_agent.Adapters.RateLimiter.Bounds.{Inv, execute-Inv, init-Inv}
use multi_ai_agent.Adapters.RateLimiter.Bucket.{count_allowed, count_allowed_bound}
use multi_ai_agent.Adapters.RateLimiter.Window.{decisions, reference, decisions-eq-reference}

abbrev bucket : RateLimitConfig
bucket = record {
  requests_per_second = 10;
  burst_size = 2;
  strategy = token_bucket;
  window_size = 100;
}

-- the burst, then one more for each tenth of a second
bucket_run : count_allowed (init "t" bucket 0) (0 ∷ 0 ∷ 0 ∷ 50 ∷ 100 ∷ []) ≡ 3
unfolding count_allowed token_bucket_allow init
bucket_run = refl

abbrev sliding : RateLimitConfig
sliding = record {
  requests_per_second = 20;
  burst_size = 2;
  strategy = sliding_window;
  window_size = 100;
}

sliding_run :
    decisions (init "s" sliding 0) (0 ∷ 50 ∷ 60 ∷ 100 ∷ 120 ∷ [])
    ≡ true ∷ true ∷ false ∷ true ∷ false ∷ []
unfolding decisions sliding_window_allow init
sliding_run = refl

execute-Inv_example : Inv (execute {E = String} {A = ℕ} (init "t" bucket 0) 5 (ok 1)).0
execute-Inv_example =
    execute-Inv {E = String} {A = ℕ} (init "t" bucket 0) 5 (ok 1) (init-Inv "t" bucket 0)

count_allowed_bound_example :
    1000 * count_allowed (init "t" bucket 0) (0 ∷ 0 ∷ 100 ∷ []) ≤ 2000 + (100 - 0) * 10
unfolding init
count_allowed_bound_example =
    count_allowed_bound (init "t" bucket 0) (0 ∷ 0 ∷ 100 ∷ []) 100 (omega arith)

decisions-eq-reference_example :
    decisions (init "s" sliding 0) (0 ∷ 50 ∷ 60 ∷ []) ≡ reference sliding [] (0 ∷ 50 ∷ 60 ∷ [])
unfolding init
decisions-eq-reference_example =
    decisions-eq-reference (init "s" sliding 0) [] 0 (0 ∷ 50 ∷ 60 ∷ []) refl (omega arith)
