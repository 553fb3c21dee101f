-- ===== src/Clients/Http/TimeoutManager.antt =====
-- libs/clients/http/timeout_manager.py. Times are milliseconds. An operation is cut where it is
-- awaited: `begin_operation` and `end_operation`, whose argument says how it ended. How an int is
-- written is a parameter.
pub mod Events
pub mod Advice
use Prim.Native.String.{◌++◌ as ◌++ₛ◌}
use multi_ai_agent.Prelude.{
  ℕ, zero, suc, ◌+◌, ◌-◌, ◌*◌, ◌/◌, Bool, true, false, not, ◌&&◌, Option, none, some, List, [], ◌∷◌,
  ◌++◌, String, str_eq, ltb, leb, ◌==◌, if◌then◌else◌, Result, ok, err, length, filter,
}
use multi_ai_agent.Prelude.Dict.{Dict, get, put, remove}
use multi_ai_agent.Prelude.Latest.{last_n}

pub data TimeoutType : Type 0 where
  connect read write total workflow_step : TimeoutType

pub data TimeoutSeverity : Type 0 where
  warning critical emergency : TimeoutSeverity

pub record TimeoutConfig : Type 0 where
  pub operation_type : String
  pub connect_timeout_ms : ℕ
  pub read_timeout_ms : ℕ
  pub write_timeout_ms : ℕ
  pub total_timeout_ms : ℕ
  pub workflow_step_timeout_ms : ℕ
  pub retry_timeout_ms : ℕ
  pub max_retries : ℕ

abbrev pub default_config : String → TimeoutConfig
default_config operation_type = record {
  operation_type = operation_type;
  connect_timeout_ms = 1000;
  read_timeout_ms = 5000;
  write_timeout_ms = 2000;
  total_timeout_ms = 10000;
  workflow_step_timeout_ms = 30000;
  retry_timeout_ms = 1000;
  max_retries = 3;
}

pub record TimeoutEvent : Type 0 where
  pub event_id : String
  pub operation_type : String
  pub timeout_type : TimeoutType
  pub timeout_value_ms : ℕ
  pub actual_duration_ms : ℕ
  pub severity : TimeoutSeverity
  pub occurred_at : ℕ

pub record Operation : Type 0 where
  pub operation_type : String
  pub timeout_type : TimeoutType
  pub start_time : ℕ
  pub timeout_value_ms : ℕ

pub record TimeoutManager : Type 0 where
  pub timeout_configs : Dict TimeoutConfig
  pub active_operations : Dict Operation
  pub timeout_events : List TimeoutEvent

abbrev config_of : String → ℕ → ℕ → ℕ → ℕ → ℕ → ℕ → TimeoutConfig
config_of operation_type connect_ms read_ms write_ms total_ms step_ms retries =
    record (default_config operation_type) {
      connect_timeout_ms = connect_ms;
      read_timeout_ms = read_ms;
      write_timeout_ms = write_ms;
      total_timeout_ms = total_ms;
      workflow_step_timeout_ms = step_ms;
      max_retries = retries;
    }

abbrev pub init : TimeoutManager
init = record {
  timeout_configs =
      ("api_gateway", config_of "api_gateway" 500 2000 1000 5000 15000 2)
      ∷ ("llm_service", config_of "llm_service" 1000 30000 5000 60000 120000 1)
      ∷ ("vector_service", config_of "vector_service" 1000 10000 2000 15000 30000 2)
      ∷ ("router-service", config_of "router-service" 500 3000 1000 8000 10000 3)
      ∷ ("billing_service", config_of "billing_service" 1000 5000 2000 10000 20000 2)
      ∷ [];
  active_operations = [];
  timeout_events = [];
}

unfoldable pub get_timeout_value : TimeoutConfig → TimeoutType → ℕ
get_timeout_value config connect = config.connect_timeout_ms
get_timeout_value config read = config.read_timeout_ms
get_timeout_value config write = config.write_timeout_ms
get_timeout_value config total = config.total_timeout_ms
get_timeout_value config workflow_step = config.workflow_step_timeout_ms

abbrev or_default : String → Option TimeoutConfig → TimeoutConfig
or_default operation_type none = default_config operation_type
or_default operation_type (some config) = config

-- A division by 0 raises, and the exception makes a warning.
unfoldable pub determine_timeout_severity : ℕ → ℕ → TimeoutSeverity
determine_timeout_severity duration value =
    if value == 0
    then warning
    else if leb duration value
    then warning
    else if leb duration (2 * value)
    then critical
    else emergency

abbrev pub new_event : String → String → TimeoutType → ℕ → ℕ → ℕ → TimeoutEvent
new_event operation_id operation_type timeout_type value duration now = record {
  event_id = "timeout_" ++ₛ operation_id;
  operation_type = operation_type;
  timeout_type = timeout_type;
  timeout_value_ms = value;
  actual_duration_ms = duration;
  severity = determine_timeout_severity duration value;
  occurred_at = now;
}

unfoldable pub handle_timeout :
    String → String → TimeoutType → ℕ → ℕ → ℕ → TimeoutManager → TimeoutManager
handle_timeout operation_id operation_type timeout_type value duration now m =
    let events =
      m.timeout_events
      ++ new_event operation_id operation_type timeout_type value duration now ∷ [] in
    record m { timeout_events = if ltb 1000 (length events) then last_n 1000 events else events }

abbrev pub operation_id : (ℕ → String) → String → ℕ → String
operation_id str operation_type now = operation_type ++ₛ ("_" ++ₛ str now)

unfoldable pub begin_operation :
    (ℕ → String) → String → TimeoutType → ℕ → TimeoutManager → TimeoutManager
begin_operation str operation_type timeout_type now m = record m {
  active_operations =
      put (operation_id str operation_type now)
        (record {
          operation_type = operation_type;
          timeout_type = timeout_type;
          start_time = now;
          timeout_value_ms =
              get_timeout_value (or_default operation_type (get operation_type m.timeout_configs))
                timeout_type;
        })
        m.active_operations;
}

pub data Ending : Type 0 where
  returns raises times_out : Ending

abbrev forget : String → TimeoutManager → TimeoutManager
forget id m = record m { active_operations = remove id m.active_operations }

-- The end of the operation that the task holds; its record in the dict is deleted, whoever's it is.
unfoldable pub end_operation : String → Operation → Ending → ℕ → TimeoutManager → TimeoutManager
end_operation id o returns now m = forget id m
end_operation id o raises now m = forget id m
end_operation id o times_out now m = forget id (
    handle_timeout id o.operation_type o.timeout_type o.timeout_value_ms (now - o.start_time) now m)

unfoldable pub update_timeout_config : String → TimeoutConfig → TimeoutManager → TimeoutManager
update_timeout_config operation_type config m = record m {
  timeout_configs = put operation_type config m.timeout_configs;
}

-- the operations that are not stale
unfoldable pub keep_recent_operations : ℕ → ℕ → Dict Operation → Dict Operation
keep_recent_operations max_age now [] = []
keep_recent_operations max_age now ((id, o) ∷ rest) =
    let kept = keep_recent_operations max_age now rest in
    if ltb max_age (now - o.start_time) then kept else (id, o) ∷ kept

unfoldable pub cleanup_stale_operations : ℕ → ℕ → TimeoutManager → TimeoutManager
cleanup_stale_operations max_age_minutes now m = record m {
  active_operations = keep_recent_operations (max_age_minutes * 60000) now m.active_operations;
}

abbrev pub of_type : String → TimeoutEvent → Bool
of_type operation_type e = str_eq e.operation_type operation_type

abbrev pub events_of : Option String → List TimeoutEvent → List TimeoutEvent
events_of none events = events
events_of (some operation_type) events =
    if str_eq operation_type "" then events else filter (of_type operation_type) events

abbrev same_type : TimeoutType → TimeoutType → Bool
same_type connect connect = true
same_type read read = true
same_type write write = true
same_type total total = true
same_type workflow_step workflow_step = true
same_type _ _ = false

abbrev same_severity : TimeoutSeverity → TimeoutSeverity → Bool
same_severity warning warning = true
same_severity critical critical = true
same_severity emergency emergency = true
same_severity _ _ = false

unfoldable pub count_type : TimeoutType → List TimeoutEvent → ℕ
count_type t events = length (filter (λ (e : TimeoutEvent). same_type e.timeout_type t) events)

unfoldable pub count_severity : TimeoutSeverity → List TimeoutEvent → ℕ
count_severity s events = length (filter (λ (e : TimeoutEvent). same_severity e.severity s) events)

unfoldable pub total_duration : List TimeoutEvent → ℕ
total_duration [] = 0
total_duration (e ∷ events) = e.actual_duration_ms + total_duration events

abbrev pub recent : ℕ → List TimeoutEvent → List TimeoutEvent
recent n events = if ltb n (length events) then last_n n events else events

-- The counters for the events of one type or all; where there is no event, a dict of counts is empty
-- and a missing count is 0. The rate is in hundredths; an average is its two
-- parts, 0 over 1 where there is no event.
pub record TimeoutStats : Type 0 where
  pub total_operations : ℕ
  pub timeout_events_count : ℕ
  pub by_type : TimeoutType → ℕ
  pub by_severity : TimeoutSeverity → ℕ
  pub recent_timeout_rate : ℕ
  pub avg_timeout_duration : ℕ × ℕ

abbrev average : List TimeoutEvent → ℕ × ℕ
average [] = (0, 1)
average (e ∷ events) = (total_duration (e ∷ events), length (e ∷ events))

unfoldable pub get_timeout_stats : Option String → TimeoutManager → TimeoutStats
get_timeout_stats operation_type m =
    let events = events_of operation_type m.timeout_events in
    record {
      total_operations = length m.active_operations;
      timeout_events_count = length m.timeout_events;
      by_type = λ t. count_type t events;
      by_severity = λ s. count_severity s events;
      recent_timeout_rate = length (recent 100 events);
      avg_timeout_duration = average events;
    }

pub data Recommendation : Type 0 where
  -- the current and the recommended timeout
  increase_timeout : ℕ → ℕ → Recommendation
  circuit_breaker : ℕ → Recommendation

-- the average of the recent events is above the limit
abbrev exceeds : List TimeoutEvent → TimeoutConfig → Bool
exceeds events config = ltb (config.total_timeout_ms * length events) (total_duration events)

-- `int(avg_timeout * 1.2)`
abbrev raised : List TimeoutEvent → ℕ
raised events = (total_duration events * 12) / (length events * 10)

abbrev advise_timeout : List TimeoutEvent → Option TimeoutConfig → List Recommendation
advise_timeout events none = []
advise_timeout events (some config) =
    if exceeds events config
    then increase_timeout config.total_timeout_ms (raised events) ∷ []
    else []

abbrev pub advise_breaker : List TimeoutEvent → List Recommendation
advise_breaker events =
    let n = count_severity critical events in if ltb 5 n then circuit_breaker n ∷ [] else []

-- the recommendations, without the confidence; none for a type without events
unfoldable pub get_timeout_recommendations : String → TimeoutManager → List Recommendation
get_timeout_recommendations operation_type m =
    let events = filter (of_type operation_type) m.timeout_events in
    let latest = recent 50 events in
    if length events == 0
    then []
    else (if ltb (length events) (10 * length latest)
        then advise_timeout latest (get operation_type m.timeout_configs)
        else [])
      ++ advise_breaker latest
