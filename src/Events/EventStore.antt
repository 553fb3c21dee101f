-- ===== src/Events/EventStore.antt =====
-- libs/events/event_store.py. The class of the events is not in the source tree: `EventApi` has
-- what the store uses of it. Reading an event back from its dict may raise; the other conversions
-- do not. Times are whole seconds, and a day has 86400 of them.
pub mod Lookup
pub mod Accounting
pub mod Hang
pub mod Pages
pub mod Statistics
pub mod Tally
use multi_ai_agent.Prelude.{
  ℕ, zero, suc, ◌+◌, ◌-◌, ◌*◌, Bool, true, false, not, ◌&&◌, ◌||◌, Option, none, some, List, [],
  ◌∷◌, ◌++◌, String, leb, ltb, if◌then◌else◌, Result, ok, err, length, filter, take, drop, str_eq,
}
use multi_ai_agent.Prelude.Int.{ℤ, pos, negsuc, ◌+ℤ◌, sub_ℕ}
use multi_ai_agent.Prelude.Dict.{Dict, get, put}
use multi_ai_agent.Events.Lock.{Awaited, done, stuck, with_lock}

pub record EventApi (Ev D : Type 0) : Type 0 where
  pub to_dict : Ev → D
  pub from_dict : D → Result String Ev
  pub json_size : Ev → ℕ
  pub event_id : Ev → String
  pub event_type : Ev → String
  pub tenant_id : Ev → Option String
  pub user_id : Ev → Option String
  pub source : Ev → Option String
  pub correlation_id : Ev → String
  pub time : Ev → ℕ

pub record EventStoreConfig : Type 0 where
  pub max_events : ℕ
  pub retention_days : ℕ
  pub batch_size : ℕ
  pub flush_interval : ℕ

pub record StoreStats : Type 0 where
  pub events_stored : ℕ
  pub events_retrieved : ℕ
  pub events_deleted : ℕ
  pub storage_size_bytes : ℤ

pub record EventData (D : Type 0) : Type 0 where
  pub event : D
  pub stored_at : ℕ
  pub size_bytes : ℕ

pub record EventStore (D : Type 0) : Type 0 where
  pub config : EventStoreConfig
  pub events : List (EventData D)
  pub lock_held : Bool
  pub stats : StoreStats

abbrev no_stats : StoreStats
no_stats = record {
  events_stored = 0;
  events_retrieved = 0;
  events_deleted = 0;
  storage_size_bytes = pos 0;
}

-- the filters of a query; an empty string counts as not given
pub record Query : Type 0 where
  pub of_type : Option String
  pub of_tenant : Option String
  pub of_user : Option String
  pub from_time : Option ℕ
  pub to_time : Option ℕ

-- a string filter that is given differs from the value
abbrev pub differs : Option String → Option String → Bool
differs none value = false
differs (some wanted) none = not (str_eq wanted "")
differs (some wanted) (some value) = not (str_eq wanted "") && not (str_eq value wanted)

abbrev pub before : ℕ → Option ℕ → Bool
before t none = false
before t (some start_time) = ltb t start_time

abbrev pub after : ℕ → Option ℕ → Bool
after t none = false
after t (some end_time) = ltb end_time t

module _ {D : Type 0} where
  unfoldable pub init : EventStoreConfig → EventStore D
  init config = record { config = config; events = []; lock_held = false; stats = no_stats }

  abbrev pub retrieved : ℕ → EventStore D → EventStore D
  retrieved n s = record s {
    stats = record s.stats { events_retrieved = s.stats.events_retrieved + n };
  }

  -- `_flush_events`: a placeholder that only takes the lock
  unfoldable pub flush_events : EventStore D → Awaited (EventStore D) (Unit {0})
  flush_events s = with_lock s.lock_held s (done s tt)

  -- what follows the flush inside the lock
  abbrev after_flush : Awaited (EventStore D) (Unit {0}) → Awaited (EventStore D) Bool
  after_flush (done s u) = done (record s { lock_held = false }) true
  after_flush (stuck s) = stuck s

  abbrev pub append : EventData D → EventStore D → EventStore D
  append item s = record s {
    events = s.events ++ item ∷ [];
    stats = record s.stats {
      events_stored = s.stats.events_stored + 1;
      storage_size_bytes = s.stats.storage_size_bytes +ℤ pos item.size_bytes;
    };
  }

  abbrev pub removed_from : EventStore D → EventData D → List (EventData D) → EventStore D
  removed_from s removed kept = record s {
    events = kept;
    stats = record s.stats {
      events_deleted = s.stats.events_deleted + 1;
      storage_size_bytes = s.stats.storage_size_bytes +ℤ sub_ℕ 0 removed.size_bytes;
    };
  }

  -- the events before the one deleted keep their place
  abbrev pub keep_item :
      EventData D
      → Result String (Option (EventData D × List (EventData D)))
      → Result String (Option (EventData D × List (EventData D)))
  keep_item item (ok (some (removed, kept))) = ok (some (removed, item ∷ kept))
  keep_item item (ok none) = ok none
  keep_item item (err e) = err e

  abbrev pub take_out :
      Result String (Option (EventData D × List (EventData D)))
      → EventStore D
      → Awaited (EventStore D) Bool
  take_out (ok (some (removed, kept))) s = done (removed_from s removed kept) true
  take_out (ok none) s = done s false
  take_out (err e) s = done s false

  module _ {Ev : Type 0} (api : EventApi Ev D) where
    abbrev pub new_data : Ev → ℕ → EventData D
    new_data event now = record {
      event = api.to_dict event;
      stored_at = now;
      size_bytes = api.json_size event;
    }

    unfoldable pub store_event : EventStore D → Ev → ℕ → Awaited (EventStore D) Bool
    store_event s event now =
        let s' = append (new_data event now) s in
        with_lock s.lock_held s (
          if leb s.config.batch_size (length s'.events)
          then after_flush (flush_events (record s' { lock_held = true }))
          else done s' true)

    -- the first event with this id
    unfoldable pub find_event : String → List (EventData D) → Result String (Option Ev)
    find_event id [] = ok none
    find_event id (item ∷ rest) =
        let found = find_event id rest in
        elim (api.from_dict item.event) [
          | ok event ↦ if str_eq (api.event_id event) id then ok (some event) else found
          | err e ↦ err e
        ]

    abbrev give_event :
        Result String (Option Ev) → EventStore D → Awaited (EventStore D) (Option Ev)
    give_event (ok (some event)) s = done (retrieved 1 s) (some event)
    give_event (ok none) s = done s none
    give_event (err e) s = done s none

    unfoldable pub get_event : EventStore D → String → Awaited (EventStore D) (Option Ev)
    get_event s id = with_lock s.lock_held s (give_event (find_event id s.events) s)

    abbrev pub selects : Query → Ev → Bool
    selects q event = not (
        differs q.of_type (some (api.event_type event))
        || differs q.of_tenant (api.tenant_id event)
        || differs q.of_user (api.user_id event)
        || before (api.time event) q.from_time
        || after (api.time event) q.to_time)

    -- the events that pass a test, or the exception of the first that cannot be read
    unfoldable pub collect : (Ev → Bool) → List (EventData D) → Result String (List Ev)
    collect test [] = ok []
    collect test (item ∷ rest) =
        let more = collect test rest in
        elim (api.from_dict item.event) [
          | ok event ↦ elim more [
            | ok events ↦ ok (if test event then event ∷ events else events)
            | err e ↦ err e
          ]
          | err e ↦ err e
        ]

    abbrev give_events :
        (List Ev → List Ev)
        → Result String (List Ev)
        → EventStore D
        → Awaited (EventStore D) (List Ev)
    give_events page (ok events) s = done (retrieved (length (page events)) s) (page events)
    give_events page (err e) s = done s []

    unfoldable pub get_events : EventStore D → Query → ℕ → ℕ → Awaited (EventStore D) (List Ev)
    get_events s q limit offset =
        with_lock s.lock_held s
          (give_events (λ events. take limit (drop offset events)) (collect (selects q) s.events) s)

    unfoldable pub get_events_by_correlation_id :
        EventStore D → String → Awaited (EventStore D) (List Ev)
    get_events_by_correlation_id s id = with_lock s.lock_held s (
        give_events (λ events. events)
          (collect (λ event. str_eq (api.correlation_id event) id) s.events) s)

    -- the list without its first event of this id, and the data of that one
    unfoldable pub split_event :
        String → List (EventData D) → Result String (Option (EventData D × List (EventData D)))
    split_event id [] = ok none
    split_event id (item ∷ rest) =
        let later = split_event id rest in
        elim (api.from_dict item.event) [
          | ok event ↦
              if str_eq (api.event_id event) id
              then ok (some (item, rest))
              else keep_item item later
          | err e ↦ err e
        ]

    unfoldable pub delete_event : EventStore D → String → Awaited (EventStore D) Bool
    delete_event s id = with_lock s.lock_held s (take_out (split_event id s.events) s)

  -- `stored_at > now - retention_days`
  abbrev pub is_recent : EventStoreConfig → ℕ → EventData D → Bool
  is_recent config now item = ltb now (item.stored_at + config.retention_days * 86400)

  abbrev pub drop_old : EventStore D → ℕ → EventStore D
  drop_old s now =
      let kept = filter (is_recent s.config now) s.events in
      let removed_count = length s.events - length kept in
      record s {
        events = kept;
        stats = record s.stats { events_deleted = s.stats.events_deleted + removed_count };
      }

  unfoldable pub cleanup_old_events : EventStore D → ℕ → Awaited (EventStore D) (Unit {0})
  cleanup_old_events s now = with_lock s.lock_held s (done (drop_old s now) tt)

  unfoldable pub get_stats : EventStore D → StoreStats × ℕ × EventStoreConfig
  get_stats s = (s.stats, length s.events, s.config)

  unfoldable pub reset_stats : EventStore D → EventStore D
  reset_stats s = record s { stats = no_stats }
