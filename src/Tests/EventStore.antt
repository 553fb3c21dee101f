-- ===== src/Tests/EventStore.antt =====
-- The event store of libs/events/event_store.py on events that are pairs of an id and a time.
use multi_ai_agent.Prelude.{
  ℕ, ◌+◌, ◌≡◌, ◌≤◌, refl, true, false, none, some, List, [], ◌∷◌, ◌++◌, String, Result, ok, length,
  filter, not, arith,
}
use multi_ai_agent.Prelude.Int.{pos}
use multi_ai_agent.Prelude.Dict.{get}
use multi_ai_agent.Events.Lock.{done, stuck}
use multi_ai_agent.Events.EventStore.{
  EventApi, EventData, EventStore, Query, store_event, get_event, get_events,
  get_events_by_correlation_id, delete_event, cleanup_old_events, collect, retrieved, is_recent,
}
use multi_ai_agent.Events.EventStore.Statistics.{Statistics, get_event_statistics}
use multi_ai_agent.Events.EventStore.Hang.{Hangs, store_all, store_all-Hangs}
use multi_ai_agent.Events.EventStore.Lookup.{get_event-store_event, delete_event_outcome}
use multi_ai_agent.Events.EventStore.Accounting.{
  Accounts, EndsWell, total_size, operations-Accounts, cleanup_old_events_size,
}
use multi_ai_agent.Events.EventStore.Pages.{get_events_pages}
use multi_ai_agent.Events.EventStore.Tally.{with_type, plus, get_event_statistics_types}

abbrev Event : Type 0
Event = String × ℕ

abbrev read_event : Event → Result String Event
read_event event = ok event

abbrev api : EventApi Event Event
api = record {
  to_dict = λ event. event;
  from_dict = read_event;
  json_size = λ event. event.1;
  event_id = λ event. event.0;
  event_type = λ event. "call";
  tenant_id = λ event. some "t";
  user_id = λ event. none;
  source = λ event. some "";
  correlation_id = λ event. "c";
  time = λ event. event.1;
}

abbrev item : String → ℕ → EventData Event
item id size = record { event = (id, size); stored_at = size; size_bytes = size }

abbrev holding : ℕ → List (EventData Event) → EventStore Event
holding batch_size items = record {
  config = record {
    max_events = 1000000;
    retention_days = 1;
    batch_size = batch_size;
    flush_interval = 5;
  };
  events = items;
  lock_held = false;
  stats = record {
    events_stored = length items;
    events_retrieved = 0;
    events_deleted = 0;
    storage_size_bytes = pos (total_size items);
  };
}

abbrev two : List (EventData Event)
two = item "a" 10 ∷ item "b" 90000 ∷ []

holding-Accounts : Accounts (holding 9 two)
holding-Accounts = record { unlocked = refl; counted = refl; size = refl }

abbrev anything : Query
anything = record {
  of_type = none;
  of_tenant = none;
  of_user = none;
  from_time = none;
  to_time = none;
}

store_all-Hangs_example :
    (s' : EventStore Event) × (store_all api (holding 3 two) (("c", 5) ∷ ("d", 6) ∷ []) 7
      ≡ stuck s')
    × Hangs api s'
store_all-Hangs_example =
    store_all-Hangs api (holding 3 two) (("c", 5) ∷ ("d", 6) ∷ []) 7 refl (omega arith)
      (omega arith)

get_event-store_event_example :
    (s' : EventStore Event) × (store_event api (holding 9 two) ("c", 5) 7 ≡ done s' true)
    × (get_event api s' "c" ≡ done (retrieved 1 s') (some ("c", 5)))
get_event-store_event_example =
    get_event-store_event api (holding 9 two) ("c", 5) 7 refl (omega arith) refl
      ((("a", 10), refl, refl), ((("b", 90000), refl, refl), tt))

delete_event_outcome_run :
    (s' : EventStore Event) × (delete_event api (holding 9 two) "a" ≡ done s' true)
    × (s'.events ≡ item "b" 90000 ∷ [])
    × (s'.stats.events_deleted ≡ 1)
    × (get_event api s' "a" ≡ done s' none)
    × (delete_event api s' "a" ≡ done s' false)
delete_event_outcome_run =
    delete_event_outcome api (holding 9 two) "a" [] (item "a" 10) (item "b" 90000 ∷ []) ("a", 10)
      refl refl refl refl tt ((("b", 90000), refl, refl), tt)

operations-Accounts_example :
    EndsWell (store_event api (holding 9 two) ("c", 5) 7)
    × EndsWell (get_event api (holding 9 two) "b")
    × EndsWell (get_events api (holding 9 two) anything 10 0)
    × EndsWell (get_events_by_correlation_id api (holding 9 two) "b")
    × EndsWell (delete_event api (holding 9 two) "b")
operations-Accounts_example =
    operations-Accounts api (holding 9 two) ("c", 5) "b" anything 10 0 7 (omega arith)
      holding-Accounts

cleanup_old_events_size_run :
    (s' : EventStore Event) × (cleanup_old_events (holding 9 two) 100000 ≡ done s' tt)
    × (s'.stats.events_stored ≡ length s'.events + s'.stats.events_deleted)
    × (s'.stats.storage_size_bytes
        ≡ pos (
            total_size s'.events
            + total_size (filter (λ x. not (is_recent (holding 9 two).config 100000 x)) two)))
cleanup_old_events_size_run = cleanup_old_events_size (holding 9 two) 100000 holding-Accounts

-- the size is still that of both events
cleanup_leaves_the_size :
    cleanup_old_events (holding 9 two) 100000
    ≡ done
        (record (holding 9 two) {
          events = item "b" 90000 ∷ [];
          stats = record (holding 9 two).stats {
            events_deleted = 1;
            storage_size_bytes = pos 90010;
          };
        })
        tt
unfolding cleanup_old_events
cleanup_leaves_the_size = refl

get_events_pages_run :
    (page_a page_b : List Event) × (s1 s2 : EventStore Event) × (get_events api
        (holding 9 two)
        anything
        1
        0
      ≡ done s1 page_a)
    × (get_events api s1 anything 1 1 ≡ done s2 page_b)
    × (get_events api (holding 9 two) anything 2 0 ≡ done s2 (page_a ++ page_b))
    × (length page_a ≤ 1)
    × (length page_b ≤ 1)
get_events_pages_run =
    get_events_pages api (holding 9 two) anything 1 1 0 (("a", 10) ∷ ("b", 90000) ∷ []) refl
      (unfold collect in refl)

get_event_statistics_types_run :
    (statistics : Statistics) × (get_event_statistics api (holding 9 two) (some 5) (some 50)
      ≡ done (holding 9 two) (some statistics))
    × (statistics.total_events ≡ 1)
    × (get "call" statistics.event_types
        ≡ plus none (length (with_type api "call" (("a", 10) ∷ []))))
get_event_statistics_types_run =
    get_event_statistics_types api (holding 9 two) (some 5) (some 50) (("a", 10) ∷ []) "call" refl
      (unfold collect in refl)
