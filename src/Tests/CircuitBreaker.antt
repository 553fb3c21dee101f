-- ===== src/Tests/CircuitBreaker.antt =====
-- The circuit breaker of libs/adapters/circuit_breaker.py on concrete calls.
use multi_ai_agent.Prelude.{
  ℕ, ◌+◌, ◌≡◌, refl, some, none, [], ◌∷◌, String, ok, err, arith, ◌⊎◌, str_eq, if◌then◌else◌,
}
use multi_ai_agent.Prelude.Dict
use multi_ai_agent.Prelude.Dict.{Dict}
use multi_ai_agent.Adapters.CircuitBreaker.{
  Breaker, closed, opened, init, call, raised, breaker_open, admit,
}
use multi_ai_agent.Adapters.CircuitBreaker.Runs.{Inv, here, next, start, init-Reach-Inv}
use multi_ai_agent.Adapters.CircuitBreaker.Calls.{
  Attempt, calls, Blocked, refused, IsClosed, threshold_blocks, probe, call_one,
}
use multi_ai_agent.Adapters.CircuitBreaker.Manager.{empty, get_breaker, get_breaker-get_breaker}

abbrev fresh : Breaker
fresh = record {
  name = "search";
  failure_threshold = 2;
  recovery_timeout = 60;
  failure_count = 0;
  last_failure_time = none;
  state = closed;
  total_calls = 0;
  successful_calls = 0;
  failed_calls = 0;
  circuit_opened_count = 0;
}

new_breaker : init "search" 2 60 ≡ fresh
unfolding init
new_breaker = refl

abbrev fails : ℕ → Attempt String ℕ
fails t = record { began = t; ended = t + 1; outcome = err "timeout" }

abbrev returns : ℕ → Attempt String ℕ
returns t = record { began = t; ended = t + 1; outcome = ok 7 }

abbrev tripped : Breaker
tripped = record fresh {
  failure_count = 2;
  last_failure_time = some 21;
  state = opened;
  total_calls = 2;
  failed_calls = 2;
  circuit_opened_count = 1;
}

two_failures : (calls fresh (fails 10 ∷ fails 20 ∷ [])).0 ≡ tripped
unfolding calls call
two_failures = refl

-- refused at 30, and probed at 81
refused_then_probed :
    (calls tripped (returns 30 ∷ returns 81 ∷ [])).1 ≡ err breaker_open ∷ ok 7 ∷ []
unfolding calls call
refused_then_probed = refl

init-Reach-Inv_example : Inv (record { breaker = (admit (init "search" 2 60) 5).0; in_flight = 1 })
unfolding admit init
init-Reach-Inv_example = init-Reach-Inv "search" 2 60 (omega arith) (next here (start 5 refl))

threshold_blocks_example :
    let b' = (calls fresh (fails 10 ∷ fails 20 ∷ [])).0 in
    Blocked b' 81 × (calls b' (returns 30 ∷ []) ≡ (refused b' 1, err breaker_open ∷ []))
threshold_blocks_example =
    threshold_blocks fresh (fails 10 ∷ []) (fails 20) (returns 30 ∷ []) 0 2 60
      (record { state = refl; counted = refl; threshold_kept = refl; timeout_kept = refl }) refl
      (("timeout", refl), tt) ("timeout", refl) (omega arith, tt)

probe_run :
    ((a : ℕ) × ((returns 81).outcome ≡ ok a)
      × ((call_one tripped (returns 81)).1 ≡ ok a)
      × IsClosed (call_one tripped (returns 81)).0 0 2 60)
    ⊎ ((e : String) × ((returns 81).outcome ≡ err e)
        × ((call_one tripped (returns 81)).1 ≡ err (raised e))
        × Blocked (call_one tripped (returns 81)).0 (82 + 60)
        × ((call_one tripped (returns 81)).0.circuit_opened_count ≡ 2))
probe_run = probe tripped 81 (returns 81) (refl, 21, refl, refl) (omega arith) (omega arith)

get_breaker-get_breaker_run :
    let (m', b) = get_breaker empty "search" 2 60 in
    (get_breaker m' "search" 9 9 ≡ (m', b))
    × ((j : String)
        → Dict.get j m'.breakers
          ≡ (if str_eq "search" j then some b else Dict.get j empty.breakers))
get_breaker-get_breaker_run = get_breaker-get_breaker empty "search" 2 60 9 9
