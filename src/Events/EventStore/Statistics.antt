-- ===== src/Events/EventStore/Statistics.antt =====
-- `get_event_statistics` of libs/events/event_store.py.
use multi_ai_agent.Prelude.{
  ℕ, ◌+◌, Bool, not, ◌||◌, Option, none, some, List, [], ◌∷◌, String, if◌then◌else◌, Result, ok,
  err, length, str_eq,
}
use multi_ai_agent.Prelude.Dict.{Dict, get, put}
use multi_ai_agent.Events.Lock.{Awaited, done, with_lock}
use multi_ai_agent.Events.EventStore.{EventStore, EventApi, before, after, collect}

pub record Statistics : Type 0 where
  pub total_events : ℕ
  pub event_types : Dict ℕ
  pub tenants : Dict ℕ
  pub sources : Dict ℕ
  pub time_range : Option ℕ × Option ℕ

-- `counts[key] = counts.get(key, 0) + 1`
abbrev pub next_count : Option ℕ → ℕ
next_count none = 1
next_count (some n) = n + 1

abbrev pub count_one : String → Dict ℕ → Dict ℕ
count_one key counts = put key (next_count (get key counts)) counts

-- an absent or an empty name is not counted
abbrev pub count_name : Option String → Dict ℕ → Dict ℕ
count_name none counts = counts
count_name (some key) counts = if str_eq key "" then counts else count_one key counts

unfoldable pub tally {ℓ} : {Ev : Type ℓ} → (Ev → Dict ℕ → Dict ℕ) → List Ev → Dict ℕ → Dict ℕ
tally count [] counts = counts
tally count (event ∷ events) counts = tally count events (count event counts)

module _ {Ev D : Type 0} (api : EventApi Ev D) where
  abbrev pub in_range : Option ℕ → Option ℕ → Ev → Bool
  in_range start_time end_time event =
      not (before (api.time event) start_time || after (api.time event) end_time)

  abbrev pub statistics_of : Option ℕ → Option ℕ → List Ev → Statistics
  statistics_of start_time end_time events = record {
    total_events = length events;
    event_types = tally (λ event. count_one (api.event_type event)) events [];
    tenants = tally (λ event. count_name (api.tenant_id event)) events [];
    sources = tally (λ event. count_name (api.source event)) events [];
    time_range = (start_time, end_time);
  }

  -- `none` is the empty dict that stands for an exception
  abbrev give_statistics :
      Option ℕ
      → Option ℕ
      → Result String (List Ev)
      → EventStore D
      → Awaited (EventStore D) (Option Statistics)
  give_statistics start_time end_time (ok events) s =
      done s (some (statistics_of start_time end_time events))
  give_statistics start_time end_time (err e) s = done s none

  unfoldable pub get_event_statistics :
      EventStore D → Option ℕ → Option ℕ → Awaited (EventStore D) (Option Statistics)
  get_event_statistics s start_time end_time =
      with_lock s.lock_held s (
        give_statistics start_time end_time (collect api (in_range start_time end_time) s.events) s)
