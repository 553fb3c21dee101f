-- ===== src/Events/DlqHandler.antt =====
-- libs/events/dlq_handler.py. The events are of a type `Ev`, and `publish` says what the event bus
-- answers for each, with `err` also where `Event.from_dict` raises: their classes are not in the source
-- tree. Times and delays are whole seconds.
-- The queue holds references to dicts, which a retry changes through the reference that it took
-- before; `ref` is the identity of such a dict.
pub mod Kept
pub mod ManualRetry
pub mod Retries
pub mod Window
use multi_ai_agent.Prelude.{
  ℕ, zero, suc, ◌+◌, ◌-◌, ◌*◌, ◌^◌, Bool, true, false, ◌&&◌, ◌==◌, Option, none, some, List, [],
  ◌∷◌, ◌++◌, map, String, leb, ltb, if◌then◌else◌, Result, ok, err, length, filter, take, drop,
  str_eq,
}
use multi_ai_agent.Events.Lock.{and_then, Awaited, done, stuck, with_lock}

pub record DlqConfig : Type 0 where
  pub max_retry_attempts : ℕ
  pub retry_delay : ℕ
  pub max_dlq_size : ℕ
  pub retention_period : ℕ
  pub enable_auto_retry : Bool
  pub retry_backoff_multiplier : ℕ

pub record DlqStats : Type 0 where
  pub events_received : ℕ
  pub events_retried : ℕ
  pub events_expired : ℕ
  pub events_processed : ℕ

pub record DlqEntry (Ev : Type 0) : Type 0 where
  pub ref : ℕ
  pub event : Ev
  pub reason : String
  pub timestamp : ℕ
  pub retry_count : ℕ
  pub next_retry : ℕ

pub record DlqHandler (Ev : Type 0) : Type 0 where
  pub config : DlqConfig
  pub has_event_bus : Bool
  pub dlq_events : List (DlqEntry Ev)
  pub next_ref : ℕ
  pub lock_held : Bool
  pub stats : DlqStats

abbrev no_stats : DlqStats
no_stats = record {
  events_received = 0;
  events_retried = 0;
  events_expired = 0;
  events_processed = 0;
}

module _ {Ev : Type 0} where
  unfoldable pub init : DlqConfig → DlqHandler Ev
  init config = record {
    config = config;
    has_event_bus = false;
    dlq_events = [];
    next_ref = 0;
    lock_held = false;
    stats = no_stats;
  }

  unfoldable pub set_event_bus : DlqHandler Ev → DlqHandler Ev
  set_event_bus h = record h { has_event_bus = true }

  -- `l.pop(i)` inside the bounds
  abbrev pub pop : List (DlqEntry Ev) → ℕ → List (DlqEntry Ev)
  pop [] i = []
  pop (x ∷ xs) zero = xs
  pop (x ∷ xs) (suc i) = x ∷ pop xs i

  abbrev pub new_entry : DlqHandler Ev → Ev → String → ℕ → DlqEntry Ev
  new_entry h event reason now = record {
    ref = h.next_ref;
    event = event;
    reason = reason;
    timestamp = now;
    retry_count = 0;
    next_retry = now;
  }

  -- the oldest event makes room in a full queue
  abbrev make_room : DlqHandler Ev → List (DlqEntry Ev)
  make_room h =
      if leb h.config.max_dlq_size (length h.dlq_events) then pop h.dlq_events 0 else h.dlq_events

  abbrev receive : DlqHandler Ev → Ev → String → ℕ → DlqHandler Ev
  receive h event reason now = record h {
    dlq_events = make_room h ++ new_entry h event reason now ∷ [];
    next_ref = h.next_ref + 1;
    stats = record h.stats { events_received = h.stats.events_received + 1 };
  }

  -- `send_to_dlq`, for a positive `max_dlq_size`; the two clock reads agree.
  unfoldable pub send_to_dlq : DlqHandler Ev → Ev → String → ℕ → Awaited (DlqHandler Ev) (Unit {0})
  send_to_dlq h event reason now = with_lock h.lock_held h (done (receive h event reason now) tt)

  abbrev pub is_due : DlqConfig → ℕ → DlqEntry Ev → Bool
  is_due config now e = leb e.next_retry now && ltb e.retry_count config.max_retry_attempts

  -- `[(i, e) for i, e in enumerate(events) if ...]` from the index `i` on
  abbrev pub events_to_retry : DlqConfig → ℕ → ℕ → List (DlqEntry Ev) → List (ℕ × DlqEntry Ev)
  events_to_retry config now i [] = []
  events_to_retry config now i (e ∷ es) =
      let rest = events_to_retry config now (suc i) es in
      if is_due config now e then (i, e) ∷ rest else rest

  abbrev postpone : DlqConfig → ℕ → DlqEntry Ev → DlqEntry Ev
  postpone config now e =
      let e' = record e { retry_count = e.retry_count + 1 } in
      record e' {
        next_retry = now + config.retry_delay * config.retry_backoff_multiplier ^ e'.retry_count;
      }

  -- a change of the dict that `ref` refers to
  abbrev pub change : ℕ → (DlqEntry Ev → DlqEntry Ev) → List (DlqEntry Ev) → List (DlqEntry Ev)
  change ref f [] = []
  change ref f (e ∷ es) = (if e.ref == ref then f e else e) ∷ change ref f es

  abbrev settle_retry : Result String Bool → DlqHandler Ev → ℕ → DlqEntry Ev → ℕ → DlqHandler Ev
  settle_retry (ok true) h index entry now = record h {
    dlq_events = if ltb index (length h.dlq_events) then pop h.dlq_events index else h.dlq_events;
    stats = record h.stats { events_processed = h.stats.events_processed + 1 };
  }
  settle_retry (ok false) h index entry now = record h {
    dlq_events =
        if ltb index (length h.dlq_events)
        then change entry.ref (postpone h.config now) h.dlq_events
        else h.dlq_events;
    stats = record h.stats { events_retried = h.stats.events_retried + 1 };
  }
  settle_retry (err e) h index entry now = h

  abbrev find_event : (Ev → String) → String → ℕ → List (DlqEntry Ev) → Option (ℕ × DlqEntry Ev)
  find_event event_id id i [] = none
  find_event event_id id i (e ∷ es) =
      let rest = find_event event_id id (suc i) es in
      if str_eq (event_id e.event) id then some (i, e) else rest

  -- The publication has answered: both answers take the lock, an exception is only logged.
  abbrev pub settle_locked :
      Result String Bool → DlqHandler Ev → ℕ → DlqEntry Ev → ℕ → Awaited (DlqHandler Ev) (Unit {0})
  settle_locked (ok success) h index entry now =
      with_lock h.lock_held h (done (settle_retry (ok success) h index entry now) tt)
  settle_locked (err e) h index entry now = done (settle_retry (err e) h index entry now) tt

  -- the end of the `async with` that holds the lock
  abbrev unlock : Awaited (DlqHandler Ev) Bool → Awaited (DlqHandler Ev) Bool
  unlock (done h found) = done (record h { lock_held = false }) found
  unlock (stuck h) = stuck h

  module _ (publish : Ev → Result String Bool) where
    unfoldable pub retry_event :
        DlqHandler Ev → ℕ → DlqEntry Ev → ℕ → Awaited (DlqHandler Ev) (Unit {0})
    retry_event h index entry now = settle_locked (publish entry.event) h index entry now

    unfoldable pub retry_events :
        DlqHandler Ev → List (ℕ × DlqEntry Ev) → ℕ → Awaited (DlqHandler Ev) (Unit {0})
    retry_events h [] now = done h tt
    retry_events h ((index, entry) ∷ rest) now =
        and_then (retry_event h index entry now) (λ h'. retry_events h' rest now)

    -- One round, with no other task in between: the events due are read under the lock and retried
    -- without it.
    unfoldable pub process_retries : DlqHandler Ev → ℕ → Awaited (DlqHandler Ev) (Unit {0})
    process_retries h now =
        if h.has_event_bus && h.config.enable_auto_retry
        then with_lock h.lock_held h
            (retry_events h (events_to_retry h.config now 0 h.dlq_events) now)
        else done h tt

    abbrev retry_found : Option (ℕ × DlqEntry Ev) → DlqHandler Ev → ℕ → Awaited (DlqHandler Ev) Bool
    retry_found none h now = done h false
    retry_found (some (i, e)) h now = and_then (retry_event h i e now) (λ h'. done h' true)

    -- The event is retried while the task holds the lock.
    unfoldable pub manual_retry :
        (Ev → String) → DlqHandler Ev → String → ℕ → Awaited (DlqHandler Ev) Bool
    manual_retry event_id h id now =
        if h.has_event_bus
        then with_lock h.lock_held h (
            unlock (
              retry_found (find_event event_id id 0 h.dlq_events) (record h { lock_held = true })
                now))
        else done h false

  -- `timestamp > now - retention_period`
  abbrev pub is_kept : DlqConfig → ℕ → DlqEntry Ev → Bool
  is_kept config now e = ltb now (e.timestamp + config.retention_period)

  abbrev pub drop_expired : DlqHandler Ev → ℕ → DlqHandler Ev
  drop_expired h now =
      let kept = filter (is_kept h.config now) h.dlq_events in
      let removed_count = length h.dlq_events - length kept in
      record h {
        dlq_events = kept;
        stats = record h.stats { events_expired = h.stats.events_expired + removed_count };
      }

  unfoldable pub cleanup_expired_events : DlqHandler Ev → ℕ → Awaited (DlqHandler Ev) (Unit {0})
  cleanup_expired_events h now = with_lock h.lock_held h (done (drop_expired h now) tt)

  abbrev of_type : (Ev → String) → Option String → List (DlqEntry Ev) → List (DlqEntry Ev)
  of_type event_type none events = events
  of_type event_type (some t) events = filter (λ e. str_eq (event_type e.event) t) events

  unfoldable pub get_dlq_events :
      (Ev → String)
      → DlqHandler Ev
      → ℕ
      → ℕ
      → Option String
      → Awaited (DlqHandler Ev) (List (DlqEntry Ev))
  get_dlq_events event_type h limit offset t =
      with_lock h.lock_held h
        (done h (of_type event_type t (take limit (drop offset h.dlq_events))))

  unfoldable pub clear_dlq : DlqHandler Ev → Awaited (DlqHandler Ev) ℕ
  clear_dlq h = with_lock h.lock_held h (done (record h { dlq_events = [] }) (length h.dlq_events))

  -- the counters, the size and the configuration
  unfoldable pub get_stats : DlqHandler Ev → DlqStats × ℕ × DlqConfig
  get_stats h = (h.stats, length h.dlq_events, h.config)

  unfoldable pub reset_stats : DlqHandler Ev → DlqHandler Ev
  reset_stats h = record h { stats = no_stats }
