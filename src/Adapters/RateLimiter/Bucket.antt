-- ===== src/Adapters/RateLimiter/Bucket.antt =====
-- The token bucket over a sequence of requests.
use multi_ai_agent.Prelude.{ℕ, ◌+◌, ◌-◌, ◌*◌, ◌≤◌, ◌≡◌, List, [], ◌∷◌, arith, ap, if◌then◌else◌}
use multi_ai_agent.Adapters.RateLimiter.{RateLimiter, token_bucket_allow}

-- How many of the requests at the times `ts` are allowed.
unfoldable pub count_allowed : RateLimiter → List ℕ → ℕ
count_allowed r [] = 0
count_allowed r (t ∷ ts) =
    let (r', allowed) = token_bucket_allow r t in
    let rest = count_allowed r' ts in if allowed then rest + 1 else rest

-- The times do not go back from `t` on, and none is after `last`.
abbrev pub Ordered : ℕ → List ℕ → ℕ → Type 0
Ordered t [] last = t ≤ last
Ordered t (u ∷ us) last = (t ≤ u) × Ordered u us last

-- one request pays a token for its admission, out of what was there and what the time adds
token_bucket_allow-pays :
    (r : RateLimiter) (now : ℕ)
    → let (r', allowed) = token_bucket_allow r now in
      (r'.tokens + (if allowed then 1000 else 0)
        ≤ r.tokens + (now - r.last_refill) * r.config.requests_per_second)
      × (r'.last_refill ≡ now)
      × (r'.config ≡ r.config)
unfolding token_bucket_allow
token_bucket_allow-pays r now = ground arith

Ordered-le : (t : ℕ) (ts : List ℕ) (last : ℕ) → Ordered t ts last → t ≤ last
Ordered-le t [] last h = h
Ordered-le t (u ∷ us) last h = omega (arith, Ordered-le u us last h.1)

sub-mul-add : (a b c k : ℕ) → a ≤ b → b ≤ c → (b - a) * k + (c - b) * k ≡ (c - a) * k
sub-mul-add a b c k h h' =
    let e : b - a + (c - b) ≡ c - a = omega arith in omega (arith, ap (λ (x : ℕ). x * k) e)

-- While the clock does not go back, the requests that a token bucket allows up to the time `last`
-- are at most the tokens that it has, and those that the rate adds until then.
pub count_allowed_bound :
    (r : RateLimiter) (ts : List ℕ) (last : ℕ)
    → Ordered r.last_refill ts last
    → 1000 * count_allowed r ts ≤ r.tokens + (last - r.last_refill) * r.config.requests_per_second
unfolding count_allowed
count_allowed_bound r [] last h = omega arith
count_allowed_bound r (t ∷ ts) last h =
    let (r', allowed) = token_bucket_allow r t in
    let rest : 1000 * count_allowed r' ts ≤ r'.tokens + (last - t) * r.config.requests_per_second =
      (let p = token_bucket_allow-pays r t in
        rw (p.1, p.2) at (count_allowed_bound r' ts last (rw p.1 h.1))) in
    ground (
      arith,
      token_bucket_allow-pays r t,
      sub-mul-add r.last_refill t last r.config.requests_per_second h.0 (Ordered-le t ts last h.1),
      rest,
    )
