-- ===== src/Clients/Http/TimeoutManager/Events.antt =====
-- The timeouts that libs/clients/http/timeout_manager.py records.
use multi_ai_agent.Prelude.{
  ℕ, ◌+◌, ◌-◌, ◌≡◌, refl, sym, ap, ◌∙◌, Option, List, [], ◌∷◌, ◌++◌, String, arith, inl, inr,
  Bool-cases, if◌then◌else◌, ltb, length,
}
use multi_ai_agent.Prelude.Latest.{last_n, last_n-last_n, last_n-short}
use multi_ai_agent.Clients.Http.TimeoutManager.{
  TimeoutType, TimeoutConfig, TimeoutEvent, Operation, TimeoutManager, init, handle_timeout,
  new_event, begin_operation, end_operation, returns, raises, times_out, update_timeout_config,
  cleanup_stale_operations, count_type, count_severity, get_timeout_stats, events_of, connect, read,
  write, total, workflow_step, warning, critical, emergency,
}

-- the event of an operation that times out now
abbrev pub event_of : String → Operation → ℕ → TimeoutEvent
event_of id o now =
    new_event id o.operation_type o.timeout_type o.timeout_value_ms (now - o.start_time) now

-- A manager after any sequence of operations, with the events of all the timeouts so far.
pub data Runs : List TimeoutEvent → TimeoutManager → Type 0 where
  start : Runs [] init
  begins :
      {past : List TimeoutEvent} {m : TimeoutManager} (str : ℕ → String) (operation_type : String)
      (t : TimeoutType) (now : ℕ)
      → Runs past m
      → Runs past (begin_operation str operation_type t now m)
  ends :
      {past : List TimeoutEvent} {m : TimeoutManager} (id : String) (o : Operation) (now : ℕ)
      → Runs past m
      → Runs past (end_operation id o returns now m)
  fails :
      {past : List TimeoutEvent} {m : TimeoutManager} (id : String) (o : Operation) (now : ℕ)
      → Runs past m
      → Runs past (end_operation id o raises now m)
  runs_out :
      {past : List TimeoutEvent} {m : TimeoutManager} (id : String) (o : Operation) (now : ℕ)
      → Runs past m
      → Runs (past ++ event_of id o now ∷ []) (end_operation id o times_out now m)
  updates :
      {past : List TimeoutEvent} {m : TimeoutManager} (operation_type : String)
      (config : TimeoutConfig)
      → Runs past m
      → Runs past (update_timeout_config operation_type config m)
  cleans_up :
      {past : List TimeoutEvent} {m : TimeoutManager} (minutes now : ℕ)
      → Runs past m
      → Runs past (cleanup_stale_operations minutes now m)

cut_to_size :
    (events : List TimeoutEvent)
    → (if ltb 1000 (length events) then last_n 1000 events else events) ≡ last_n 1000 events
cut_to_size events = elim (Bool-cases (ltb 1000 (length events))) [
  | inl p ↦ rw p refl
  | inr p ↦ rw p (sym (last_n-short 1000 events (ground arith)))
]

-- Whatever operations run, the events kept are the last 1000 of all the timeouts so far.
pub events_latest :
    {past : List TimeoutEvent} {m : TimeoutManager}
    → Runs past m
    → m.timeout_events ≡ last_n 1000 past
unfolding begin_operation end_operation handle_timeout update_timeout_config
    cleanup_stale_operations
events_latest start = refl
events_latest (begins str operation_type t now r) = events_latest r
events_latest (ends id o now r) = events_latest r
events_latest (fails id o now r) = events_latest r
events_latest (runs_out {past} {m} id o now r) =
    cut_to_size (m.timeout_events ++ event_of id o now ∷ [])
    ∙ ap (λ l. last_n 1000 (l ++ event_of id o now ∷ [])) (events_latest r)
    ∙ last_n-last_n 1000 past (event_of id o now) (omega arith)
events_latest (updates operation_type config r) = events_latest r
events_latest (cleans_up minutes now r) = events_latest r

counts_types :
    (events : List TimeoutEvent)
    → count_type connect events
        + count_type read events
        + count_type write events
        + count_type total events
        + count_type workflow_step events
      ≡ length events
unfolding count_type
counts_types [] = omega arith
counts_types (e ∷ events) = ground (arith, counts_types events)

counts_severities :
    (events : List TimeoutEvent)
    → count_severity warning events
        + count_severity critical events
        + count_severity emergency events
      ≡ length events
unfolding count_severity
counts_severities [] = omega arith
counts_severities (e ∷ events) = ground (arith, counts_severities events)

-- The counts by type, and those by severity, make up the events that the statistics are about.
pub get_timeout_stats_sums :
    (operation_type : Option String) (m : TimeoutManager)
    → let stats = get_timeout_stats operation_type m in
      let n = length (events_of operation_type m.timeout_events) in
      (stats.by_type connect
          + stats.by_type read
          + stats.by_type write
          + stats.by_type total
          + stats.by_type workflow_step
        ≡ n)
      × (stats.by_severity warning + stats.by_severity critical + stats.by_severity emergency ≡ n)
unfolding get_timeout_stats
get_timeout_stats_sums operation_type m =
    let events = events_of operation_type m.timeout_events in
    (counts_types events, counts_severities events)
