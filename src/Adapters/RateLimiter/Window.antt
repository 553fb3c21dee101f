-- ===== src/Adapters/RateLimiter/Window.antt =====
-- The sliding window prunes its list of times; its decisions are those of the full history.
use multi_ai_agent.Prelude.{
  ℕ, zero, suc, ◌*◌, ◌≤◌, ◌<◌, ◌≡◌, Bool, true, List, [], ◌∷◌, ◌++◌, arith, if◌then◌else◌, filter,
  length, ltb, refl, Bool-cases, inl, inr, ltb→lt, lt→ltb,
}
use multi_ai_agent.Adapters.RateLimiter.{
  RateLimiter, RateLimitConfig, sliding_window_allow, in_window, under_limit,
}

-- The decisions on requests at the times `ts`.
unfoldable pub decisions : RateLimiter → List ℕ → List Bool
decisions r [] = []
decisions r (t ∷ ts) = let (r', allowed) = sliding_window_allow r t in allowed ∷ decisions r' ts

-- The decision by the history of all allowed requests: those in the window ending at `t` are
-- counted, and the request is allowed if they are below the limit.
abbrev pub allows : RateLimitConfig → List ℕ → ℕ → Bool
allows c history t = under_limit c (length (filter (in_window c.window_size t) history))

unfoldable pub reference : RateLimitConfig → List ℕ → List ℕ → List Bool
reference c history [] = []
reference c history (t ∷ ts) =
    let allowed = allows c history t in
    allowed ∷ reference c (if allowed then history ++ t ∷ [] else history) ts

-- The times do not go back from `t` on.
abbrev pub Ascending : ℕ → List ℕ → Type 0
Ascending t [] = Unit
Ascending t (u ∷ us) = (t ≤ u) × Ascending u us

-- what has left the window does not come back
filter-filter :
    (w before now : ℕ) (history : List ℕ)
    → before ≤ now
    → filter (in_window w now) (filter (in_window w before) history)
      ≡ filter (in_window w now) history
filter-filter w before now [] h = refl
filter-filter w before now (t ∷ history) h = ground (arith, filter-filter w before now history h)

filter-append : (p : ℕ → Bool) (xs ys : List ℕ) → filter p (xs ++ ys) ≡ filter p xs ++ filter p ys
filter-append p [] ys = refl
filter-append p (x ∷ xs) ys = ground (arith, filter-append p xs ys)

-- `r` holds the part of the history that was in the window at the time `before`.
record Tracks (r : RateLimiter) (c : RateLimitConfig) (history : List ℕ) (before : ℕ) : Type 0 where
  config : r.config ≡ c
  times : r.request_times ≡ filter (in_window c.window_size before) history

-- the limit of an empty window is 0
window_pos : (k w n : ℕ) → n < k * w → ltb 0 w ≡ true
window_pos k zero n h = absurd (omega arith)
window_pos k (suc w) n h = lt→ltb 0 (suc w) (omega arith)

filter_next :
    (w t : ℕ) (history : List ℕ)
    → ltb 0 w ≡ true
    → filter (in_window w t) history ++ t ∷ [] ≡ filter (in_window w t) (history ++ t ∷ [])
filter_next w t history h = rw (filter-append (in_window w t) history (t ∷ [])) (ground arith)

sliding_window_allow-Tracks :
    (r : RateLimiter) (c : RateLimitConfig) (history : List ℕ) (before t : ℕ)
    → Tracks r c history before
    → before ≤ t
    → let (r', allowed) = sliding_window_allow r t in
      (allowed ≡ allows c history t)
      × Tracks r' c (if allows c history t then history ++ t ∷ [] else history) t
unfolding sliding_window_allow
sliding_window_allow-Tracks r c history before t k h =
    rw (k.config, k.times, filter-filter c.window_size before t history h)
      (elim (Bool-cases (allows c history t)) [
        | inl a ↦ rw a (
          refl,
          record {
            config = refl;
            times =
                filter_next c.window_size t history
                  (window_pos c.requests_per_second c.window_size _ (ltb→lt _ _ a));
          },
        )
        | inr d ↦ rw d (refl, record { config = refl; times = refl })
      ])

decisions-Tracks :
    (r : RateLimiter) (c : RateLimitConfig) (history : List ℕ) (before : ℕ) (ts : List ℕ)
    → Tracks r c history before
    → Ascending before ts
    → decisions r ts ≡ reference c history ts
unfolding decisions reference
decisions-Tracks r c history before [] k h = refl
decisions-Tracks r c history before (t ∷ ts) k h =
    let (same, next) = sliding_window_allow-Tracks r c history before t k h.0 in
    let rest =
      decisions-Tracks (sliding_window_allow r t).0 c
        (if allows c history t then history ++ t ∷ [] else history) t ts next h.1 in
    cc (same, rest)

-- While the clock does not go back, a limiter that holds the part of the history in its window
-- decides on every later request as the full history of allowed requests does.
pub decisions-eq-reference :
    (r : RateLimiter) (history : List ℕ) (before : ℕ) (ts : List ℕ)
    → r.request_times ≡ filter (in_window r.config.window_size before) history
    → Ascending before ts
    → decisions r ts ≡ reference r.config history ts
decisions-eq-reference r history before ts k h =
    decisions-Tracks r r.config history before ts (record { config = refl; times = k }) h
