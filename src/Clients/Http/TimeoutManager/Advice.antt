-- ===== src/Clients/Http/TimeoutManager/Advice.antt =====
-- The recommendations of libs/clients/http/timeout_manager.py.
use multi_ai_agent.Prelude.{
  ℕ, ◌*◌, ◌≤◌, ◌≡◌, refl, false, List, String, arith, inl, inr, Bool-cases, ltb, ◌==◌, length,
  filter, le→ltb_false,
}
use multi_ai_agent.Prelude.Latest.{length-last_n}
use multi_ai_agent.Clients.Http.TimeoutManager.{
  TimeoutEvent, TimeoutManager, of_type, recent, advise_breaker, get_timeout_recommendations,
}

length-recent : (n : ℕ) (events : List TimeoutEvent) → length (recent n events) ≤ n
length-recent n events = elim (Bool-cases (ltb n (length events))) [
  | inl p ↦ rw p (omega (arith, length-last_n n events))
  | inr p ↦ rw p (ground arith)
]

-- Once 500 timeouts of a type are kept, however long they lasted, no longer timeout is recommended
-- for it: what is taken for the share of timeouts is that of the last 50 among all timeouts. The
-- circuit breaker alone may be recommended.
pub no_increase :
    (operation_type : String) (m : TimeoutManager)
    → 500 ≤ length (filter (of_type operation_type) m.timeout_events)
    → get_timeout_recommendations operation_type m
      ≡ advise_breaker (recent 50 (filter (of_type operation_type) m.timeout_events))
unfolding get_timeout_recommendations
no_increase operation_type m h =
    let events = filter (of_type operation_type) m.timeout_events in
    let some_events : (length events == 0) ≡ false = ground arith in
    let few : ltb (length events) (10 * length (recent 50 events)) ≡ false =
      le→ltb_false (length events) (10 * length (recent 50 events))
        (omega (arith, length-recent 50 events)) in
    rw (get_timeout_recommendations, some_events, few) refl
