-- ===== src/Tests/DlqHandler.antt =====
-- The dead-letter queue of libs/events/dlq_handler.py on concrete events, which are strings here.
use multi_ai_agent.Prelude.{
  ℕ, ◌+◌, ◌≡◌, ◌≤◌, ◌<◌, refl, Bool, true, false, List, [], ◌∷◌, ◌++◌, String, Result, ok, err,
  str_eq, length, All, arith, if◌then◌else◌,
}
use multi_ai_agent.Events.Lock.{done, stuck}
use multi_ai_agent.Events.DlqHandler.{
  DlqConfig, DlqEntry, DlqHandler, send_to_dlq, process_retries, retry_events, retry_event,
  manual_retry, cleanup_expired_events, new_entry,
}
use multi_ai_agent.Events.DlqHandler.Window.{Holds, send_to_dlq-Holds}
use multi_ai_agent.Events.DlqHandler.Retries.{
  Ready, settled, process_retries_one, process_retries_wrong_event,
}
use multi_ai_agent.Events.DlqHandler.ManualRetry.{Hangs, manual_retry-Hangs}
use multi_ai_agent.Events.DlqHandler.Kept.{
  refs, process_retries_undelivered, cleanup_expired_events_outcome,
}

abbrev small : DlqConfig
small = record {
  max_retry_attempts = 3;
  retry_delay = 10;
  max_dlq_size = 3;
  retention_period = 100;
  enable_auto_retry = true;
  retry_backoff_multiplier = 2;
}

-- the bus: it raises for "down" and delivers no "lost"
abbrev publish : String → Result String Bool
publish event =
    if str_eq event "down" then err "bus" else if str_eq event "lost" then ok false else ok true

abbrev deaf : String → Result String Bool
deaf event = ok false

abbrev itself : String → String
itself event = event

abbrev entry : ℕ → String → ℕ → DlqEntry String
entry ref event due = record {
  ref = ref;
  event = event;
  reason = "r";
  timestamp = 0;
  retry_count = 0;
  next_retry = due;
}

abbrev holding : List (DlqEntry String) → DlqHandler String
holding entries = record {
  config = small;
  has_event_bus = true;
  dlq_events = entries;
  next_ref = 9;
  lock_held = false;
  stats = record {
    events_received = 9;
    events_retried = 0;
    events_expired = 0;
    events_processed = 0;
  };
}

abbrev holding-Ready : (entries : List (DlqEntry String)) → Ready (holding entries)
holding-Ready entries = record { bus = refl; auto = refl; unlocked = refl }

abbrev three : List (DlqEntry String)
three = entry 0 "a" 0 ∷ entry 1 "b" 0 ∷ entry 2 "c" 0 ∷ []

send_to_dlq-Holds_example :
    (h' : DlqHandler String) × (send_to_dlq (holding three) "d" "r" 5 ≡ done h' tt)
    × Holds h' (three ++ new_entry (holding three) "d" "r" 5 ∷ [])
    × (length h'.dlq_events ≤ 3)
    × (h'.stats.events_received ≡ 10)
send_to_dlq-Holds_example =
    send_to_dlq-Holds (holding three) three "d" "r" 5 (omega arith)
      (record { latest = refl; unlocked = refl })

process_retries_one_run :
    (h' : DlqHandler String) × (process_retries publish
        (holding (entry 0 "x" 50 ∷ entry 1 "lost" 0 ∷ entry 2 "y" 50 ∷ []))
        7
      ≡ done h' tt)
    × (h'.dlq_events
        ≡ settled
            (publish "lost")
            small
            7
            (entry 0 "x" 50 ∷ [])
            (entry 1 "lost" 0)
            (entry 2 "y" 50 ∷ []))
process_retries_one_run =
    process_retries_one publish (holding (entry 0 "x" 50 ∷ entry 1 "lost" 0 ∷ entry 2 "y" 50 ∷ []))
      7 (entry 0 "x" 50 ∷ []) (entry 1 "lost" 0) (entry 2 "y" 50 ∷ [])
      (holding-Ready (entry 0 "x" 50 ∷ entry 1 "lost" 0 ∷ entry 2 "y" 50 ∷ [])) refl (refl, tt) refl
      (refl, tt) (refl, tt) (refl, tt)

-- "c", which was never published, is gone, and "b", which was delivered, is still there
wrong_event_removed :
    process_retries publish (holding (entry 0 "a" 0 ∷ entry 1 "b" 0 ∷ entry 2 "c" 90 ∷ [])) 7
    ≡ done
        (record (holding (entry 1 "b" 0 ∷ [])) {
          stats = record {
            events_received = 9;
            events_retried = 0;
            events_expired = 0;
            events_processed = 2;
          };
        })
        tt
unfolding process_retries retry_events retry_event
wrong_event_removed = refl

process_retries_wrong_event_example :
    (h' : DlqHandler String) × (process_retries publish
        (holding (entry 0 "a" 0 ∷ entry 1 "b" 0 ∷ entry 2 "c" 90 ∷ []))
        7
      ≡ done h' tt)
    × (h'.dlq_events ≡ entry 1 "b" 0 ∷ [])
    × (h'.stats.events_processed ≡ 2)
process_retries_wrong_event_example =
    process_retries_wrong_event publish
      (holding (entry 0 "a" 0 ∷ entry 1 "b" 0 ∷ entry 2 "c" 90 ∷ [])) 7 (entry 0 "a" 0)
      (entry 1 "b" 0) (entry 2 "c" 90) []
      (holding-Ready (entry 0 "a" 0 ∷ entry 1 "b" 0 ∷ entry 2 "c" 90 ∷ [])) refl refl refl
      (refl, tt) refl refl

manual_retry-Hangs_example :
    (manual_retry publish itself (holding three) "b" 7
      ≡ stuck (record (holding three) { lock_held = true }))
    × Hangs (record (holding three) { lock_held = true })
manual_retry-Hangs_example =
    manual_retry-Hangs publish itself (holding three) "b" true (entry 0 "a" 0 ∷ []) (entry 1 "b" 0)
      (entry 2 "c" 0 ∷ []) 7 refl refl refl (refl, tt) refl refl

deaf_delivers_none : (event : String) → ¬ (deaf event ≡ ok true)
deaf_delivers_none event h = cc

process_retries_undelivered_run :
    (h' : DlqHandler String) × (process_retries deaf (holding three) 7 ≡ done h' tt)
    × (refs h'.dlq_events ≡ 0 ∷ 1 ∷ 2 ∷ [])
process_retries_undelivered_run =
    process_retries_undelivered deaf (holding three) 7 (holding-Ready three) deaf_delivers_none

cleanup_expired_events_outcome_run :
    (h' : DlqHandler String) × (cleanup_expired_events (holding three) 200 ≡ done h' tt)
    × (h'.stats.events_expired + length h'.dlq_events ≡ 3)
    × All (λ e. 200 < e.timestamp + 100) h'.dlq_events
    × (cleanup_expired_events h' 200 ≡ done h' tt)
cleanup_expired_events_outcome_run = cleanup_expired_events_outcome (holding three) 200 refl
