-- ===== src/Adapters/CircuitBreaker/Calls.antt =====
-- The circuit breaker under calls made one after the other.
use multi_ai_agent.Prelude.{
  ℕ, ◌+◌, ◌≤◌, ◌<◌, ◌≡◌, refl, some, List, [], ◌∷◌, ◌++◌, arith, length, All, Result, ok, err,
  replicate, ◌⊎◌, inl, inr, Result-cases,
}
use multi_ai_agent.Adapters.CircuitBreaker.{
  closed, opened, Breaker, call, raised, breaker_open, CallError,
}

-- A call as the breaker meets it: when it begins, when it ends, and what its function does.
pub record Attempt (E A : Type 0) : Type 0 where
  pub began : ℕ
  pub ended : ℕ
  pub outcome : Result E A

-- The breaker is open and refuses calls that begin before `until`.
abbrev pub Blocked : Breaker → ℕ → Type 0
Blocked b until =
    (b.state ≡ opened) × (t : ℕ) × (b.last_failure_time ≡ some t) × (until ≡ t + b.recovery_timeout)

-- The counters after `n` refused calls.
abbrev pub refused : Breaker → ℕ → Breaker
refused b n = record b { total_calls = b.total_calls + n; failed_calls = b.failed_calls + n }

module _ {E A : Type 0} where
  abbrev pub call_one : Breaker → Attempt E A → Breaker × Result (CallError E) A
  call_one b c = call b c.began c.ended c.outcome

  unfoldable pub calls : Breaker → List (Attempt E A) → Breaker × List (Result (CallError E) A)
  calls b [] = (b, [])
  calls b (c ∷ cs) = let (b', r) = call_one b c in let (b'', rs) = calls b' cs in (b'', r ∷ rs)

  abbrev pub Fails : Attempt E A → Type 0
  Fails c = (e : E) × (c.outcome ≡ err e)

-- A closed breaker with its failure count, threshold and timeout.
pub record IsClosed (b : Breaker) (count threshold timeout : ℕ) : Type 0 where
  pub state : b.state ≡ closed
  pub counted : b.failure_count ≡ count
  pub threshold_kept : b.failure_threshold ≡ threshold
  pub timeout_kept : b.recovery_timeout ≡ timeout

module _ {E A : Type 0} where
  call-Fails :
      (b : Breaker) (c : Attempt E A) (n th timeout : ℕ)
      → IsClosed b n th timeout
      → n + 1 < th
      → Fails c
      → IsClosed (call_one b c).0 (n + 1) th timeout
  unfolding call
  call-Fails b c n th timeout s h f = ground arith

  -- Failing calls leave a closed breaker closed while the count stays below the threshold.
  pub calls-Fails :
      (b : Breaker) (cs : List (Attempt E A)) (n th timeout : ℕ)
      → IsClosed b n th timeout
      → n + length cs < th
      → All Fails cs
      → IsClosed (calls b cs).0 (n + length cs) th timeout
  unfolding calls
  calls-Fails b [] n th timeout s h f = ground arith
  calls-Fails b (c ∷ cs) n th timeout s h f = ground (
    arith,
    calls-Fails (call_one b c).0 cs (n + 1) th timeout
        (call-Fails b c n th timeout s (omega arith) f.0) (omega arith) f.1,
  )

  call-Fails_last :
      (b : Breaker) (c : Attempt E A) (n th timeout : ℕ)
      → IsClosed b n th timeout
      → n + 1 ≡ th
      → Fails c
      → Blocked (call_one b c).0 (c.ended + timeout)
  unfolding call
  call-Fails_last b c n th timeout s h f = (ground arith, c.ended, ground arith, ground arith)

  calls-append :
      (b : Breaker) (cs ds : List (Attempt E A))
      → (calls b (cs ++ ds)).0 ≡ (calls (calls b cs).0 ds).0
  unfolding calls
  calls-append b [] ds = refl
  calls-append b (c ∷ cs) ds = calls-append (call_one b c).0 cs ds

  call-Blocked :
      (b : Breaker) (until : ℕ) (c : Attempt E A)
      → Blocked b until
      → c.began < until
      → call_one b c ≡ (refused b 1, err breaker_open)
  unfolding call
  call-Blocked b until c h lt = ground arith

  -- While the breaker is open and the timeout has not passed, every call is refused, its function
  -- is not consulted, and nothing changes but the two counters.
  pub calls-Blocked :
      (b : Breaker) (until : ℕ) (cs : List (Attempt E A))
      → Blocked b until
      → All (λ c. c.began < until) cs
      → calls b cs ≡ (refused b (length cs), replicate (length cs) (err breaker_open))
  unfolding calls
  calls-Blocked b until [] h t = ground arith
  calls-Blocked b until (c ∷ cs) h t =
      rw (call-Blocked b until c h t.0) (ground (arith, calls-Blocked (refused b 1) until cs h t.1))

  Blocked-calls :
      (b : Breaker) (cs : List (Attempt E A)) (c : Attempt E A) (n th timeout : ℕ)
      → IsClosed b n th timeout
      → n + length cs + 1 ≡ th
      → All Fails cs
      → Fails c
      → Blocked (calls b (cs ++ c ∷ [])).0 (c.ended + timeout)
  Blocked-calls b cs c n th timeout s h f fc = rw (calls-append b cs (c ∷ [])) (
      unfold calls in
      call-Fails_last (calls b cs).0 c (n + length cs) th timeout
        (calls-Fails b cs n th timeout s (omega arith) f) h fc)

  -- From a closed breaker, failing calls that bring the failure count to the threshold open it: it
  -- is then open until the recovery timeout has passed since the end of the last of them, and of
  -- the calls that begin before that every one is refused and changes only the counters of calls
  -- and of failed calls, whatever its function would have done.
  pub threshold_blocks :
      (b : Breaker) (cs : List (Attempt E A)) (c : Attempt E A) (ds : List (Attempt E A))
      (n th timeout : ℕ)
      → IsClosed b n th timeout
      → n + length cs + 1 ≡ th
      → All Fails cs
      → Fails c
      → All (λ d. d.began < c.ended + timeout) ds
      → let b' = (calls b (cs ++ c ∷ [])).0 in
        Blocked b' (c.ended + timeout)
        × (calls b' ds ≡ (refused b' (length ds), replicate (length ds) (err breaker_open)))
  threshold_blocks b cs c ds n th timeout s h f fc t =
      let bl = Blocked-calls b cs c n th timeout s h f fc in
      (bl, calls-Blocked (calls b (cs ++ c ∷ [])).0 (c.ended + timeout) ds bl t)

  -- Once the timeout has passed, an open breaker lets a probe through: it closes with no failure
  -- counted if the probe succeeds; if the probe fails, it is open again for the timeout from the
  -- probe's end, and the opening is counted.
  pub probe :
      (b : Breaker) (until : ℕ) (c : Attempt E A)
      → Blocked b until
      → b.failure_threshold ≤ b.failure_count
      → until ≤ c.began
      → ((a : A) × (c.outcome ≡ ok a)
          × (call_one b c).1 ≡ ok a
          × IsClosed (call_one b c).0 0 b.failure_threshold b.recovery_timeout)
        ⊎ ((e : E) × (c.outcome ≡ err e)
            × (call_one b c).1 ≡ err (raised e)
            × Blocked (call_one b c).0 (c.ended + b.recovery_timeout)
            × ((call_one b c).0.circuit_opened_count ≡ b.circuit_opened_count + 1))
  unfolding call
  probe b until c h th le = elim (Result-cases c.outcome) [
    | inl (a, p) ↦ inl (a, p, ground arith, ground arith)
    | inr (e, p) ↦
        inr (e, p, ground arith, (ground arith, c.ended, ground arith, ground arith), ground arith)
  ]
