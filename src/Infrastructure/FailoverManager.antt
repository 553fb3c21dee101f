-- ===== src/Infrastructure/FailoverManager.antt =====
-- libs/infrastructure/failover_manager.py. Times are seconds, rates and usages hundredths. What a
-- health check finds, which regions are healthy and whether the steps of a failover succeed are
-- parameters. A failover task that a trigger creates ends later, by `execute_failover`.
pub mod Runs
pub mod Threshold
pub mod Cooldown
use multi_ai_agent.Prelude.{
  ℕ, zero, suc, ◌+◌, ◌-◌, ◌/◌, Bool, true, false, not, ◌&&◌, ◌||◌, Option, none, some, List, [],
  ◌∷◌, ◌++◌, String, leb, ltb, ◌==◌, if◌then◌else◌, length, filter, any, is_some,
}
use multi_ai_agent.Prelude.Dict.{Dict, get, put}

pub data FailoverStatus : Type 0 where
  healthy degraded failed failing_over recovering : FailoverStatus

pub data FailoverTrigger : Type 0 where
  manual automatic health_check latency_threshold error_rate_threshold resource_exhaustion :
      FailoverTrigger

pub data FailoverPriority : Type 0 where
  low medium high critical : FailoverPriority

pub record FailoverConfig : Type 0 where
  pub service_name : String
  pub primary_region : String
  pub backup_regions : List String
  pub failover_triggers : List FailoverTrigger
  pub health_check_interval_seconds : ℕ
  pub failover_threshold_seconds : ℕ
  pub recovery_threshold_seconds : ℕ
  pub max_failover_attempts : ℕ
  pub failover_cooldown_seconds : ℕ
  pub priority : FailoverPriority
  pub auto_recovery : Bool

pub record FailoverStats : Type 0 where
  pub status : FailoverStatus
  pub last_failover_time : Option ℕ
  pub failover_count : ℕ
  pub recovery_count : ℕ
  pub last_health_check : ℕ
  pub error_count : ℕ
  pub last_error : Option String

-- what `_check_service_health` returns; a key may be missing
pub record Health : Type 0 where
  pub is_healthy : Bool
  pub error : Option String
  pub latency_ms : Option ℕ
  pub error_rate : Option ℕ
  pub cpu_usage : Option ℕ
  pub memory_usage : Option ℕ

abbrev pub initial_stats : ℕ → FailoverStats
initial_stats now = record {
  status = healthy;
  last_failover_time = none;
  failover_count = 0;
  recovery_count = 0;
  last_health_check = now;
  error_count = 0;
  last_error = none;
}

abbrev pub is_failing_over : FailoverStatus → Bool
is_failing_over failing_over = true
is_failing_over _ = false

abbrev pub is_failed : FailoverStatus → Bool
is_failed failed = true
is_failed _ = false

-- whether less than the time has passed since the last failover
abbrev pub within : Option ℕ → ℕ → ℕ → Bool
within none limit now = false
within (some last) limit now = ltb (now - last) limit

abbrev above : Option ℕ → ℕ → Bool
above none limit = false
above (some n) limit = ltb limit n

abbrev same_trigger : FailoverTrigger → FailoverTrigger → Bool
same_trigger manual manual = true
same_trigger automatic automatic = true
same_trigger health_check health_check = true
same_trigger latency_threshold latency_threshold = true
same_trigger error_rate_threshold error_rate_threshold = true
same_trigger resource_exhaustion resource_exhaustion = true
same_trigger _ _ = false

-- `trigger in config.failover_triggers`
abbrev listens : FailoverConfig → FailoverTrigger → Bool
listens config trigger = any (same_trigger trigger) config.failover_triggers

-- the triggers that look at the measurements
abbrev pub specific_trigger : FailoverConfig → Health → Bool
specific_trigger config h =
    listens config latency_threshold && above h.latency_ms 5000
    || listens config error_rate_threshold && above h.error_rate 10
    || listens config resource_exhaustion && (above h.cpu_usage 95 || above h.memory_usage 95)

-- An interval of 0 raises a ZeroDivisionError, which is caught.
unfoldable pub should_trigger_failover : FailoverConfig → Health → ℕ → FailoverStats → Bool
should_trigger_failover config h now s =
    if is_failing_over s.status
    then false
    else if within s.last_failover_time config.failover_cooldown_seconds now
    then false
    else if config.health_check_interval_seconds == 0
    then false
    else if leb (config.failover_threshold_seconds / config.health_check_interval_seconds)
        s.error_count
    then true
    else specific_trigger config h

unfoldable pub should_attempt_recovery : FailoverConfig → ℕ → FailoverStats → Bool
should_attempt_recovery config now s =
    if not config.auto_recovery
    then false
    else if within s.last_failover_time config.recovery_threshold_seconds now
    then false
    else not (leb config.max_failover_attempts s.recovery_count)

-- A service: its statistics and how many failover tasks run.
pub record Service : Type 0 where
  pub stats : FailoverStats
  pub tasks : ℕ

unfoldable pub trigger_failover : ℕ → Service → Service
trigger_failover now v = if is_failing_over v.stats.status then v else record v {
  stats = record v.stats {
    status = failing_over;
    last_failover_time = some now;
    failover_count = v.stats.failover_count + 1;
  };
  tasks = v.tasks + 1;
}

-- `_perform_recovery_steps`: the primary region is healthy and each step returns
abbrev pub perform_recovery_steps : Bool → Bool → Bool
perform_recovery_steps primary_healthy steps = if not primary_healthy then false else steps

unfoldable pub attempt_recovery : Bool → Bool → FailoverStats → FailoverStats
attempt_recovery primary_healthy steps s =
    let s' = record s { recovery_count = s.recovery_count + 1 } in
    if perform_recovery_steps primary_healthy steps
    then record s' { status = healthy }
    else record s' { status = failed }

-- the statistics after a check that finds the service healthy, or not
abbrev pub checked_healthy : ℕ → FailoverStats → FailoverStats
checked_healthy now s = record s {
  last_health_check = now;
  status = healthy;
  error_count = 0;
  last_error = none;
}

abbrev pub error_of : Option String → String
error_of none = "Unknown error"
error_of (some e) = e

abbrev pub checked_unhealthy : Health → ℕ → FailoverStats → FailoverStats
checked_unhealthy h now s = record s {
  last_health_check = now;
  error_count = s.error_count + 1;
  last_error = some (error_of h.error);
}

unfoldable pub perform_health_check : FailoverConfig → Health → Bool → Bool → ℕ → Service → Service
perform_health_check config h primary_healthy steps now v =
    if h.is_healthy
    then (let s = checked_healthy now v.stats in
        record v {
          stats =
              if is_failed s.status && config.auto_recovery && should_attempt_recovery config now s
              then attempt_recovery primary_healthy steps s
              else s;
        })
    else (let v' = record v { stats = checked_unhealthy h now v.stats } in
        if should_trigger_failover config h now v'.stats then trigger_failover now v' else v')

-- the first healthy backup region
unfoldable pub select_backup_region : (String → Bool) → List String → Option String
select_backup_region region_healthy [] = none
select_backup_region region_healthy (r ∷ regions) =
    let rest = select_backup_region region_healthy regions in
    if region_healthy r then some r else rest

-- The end of a failover task: what the steps to the region return.
unfoldable pub execute_failover :
    FailoverConfig → (String → Bool) → (String → Bool) → Service → Service
execute_failover config region_healthy steps v =
    let ended = record v { tasks = v.tasks - 1 } in
    elim (select_backup_region region_healthy config.backup_regions) [
      | none ↦ record ended { stats = record v.stats { status = failed } }
      | some region ↦
          if steps region
          then record ended { stats = record v.stats { status = healthy } }
          else record ended { stats = record v.stats { status = failed } }
    ]

pub record FailoverManager : Type 0 where
  pub region : String
  pub failover_configs : Dict FailoverConfig
  pub services : Dict Service

-- A service that is registered again starts anew.
unfoldable pub register_service : FailoverConfig → ℕ → FailoverManager → FailoverManager
register_service config now m = record m {
  failover_configs = put config.service_name config m.failover_configs;
  services = put config.service_name (record { stats = initial_stats now; tasks = 0 }) m.services;
}

-- an operation on a service that is registered; on another one, a KeyError that is caught
abbrev pub on_service :
    String → (FailoverConfig → Service → Service) → FailoverManager → FailoverManager
on_service name f m = elim (get name m.failover_configs) [
  | none ↦ m
  | some config ↦ elim (get name m.services) [
    | none ↦ m
    | some v ↦ record m { services = put name (f config v) m.services }
  ]
]

unfoldable pub manual_failover : String → ℕ → FailoverManager → FailoverManager × Bool
manual_failover name now m = elim (get name m.failover_configs) [
  | none ↦ (m, false)
  | some config ↦ (on_service name (λ config v. trigger_failover now v) m, true)
]

pub record StatusReport : Type 0 where
  pub total_services : ℕ
  pub healthy_services : ℕ
  pub degraded_services : ℕ
  pub failed_services : ℕ

abbrev is_healthy_status : FailoverStatus → Bool
is_healthy_status healthy = true
is_healthy_status _ = false

abbrev is_degraded : FailoverStatus → Bool
is_degraded degraded = true
is_degraded _ = false

-- the statistics of the registered services, `get_failover_status` without the configuration
unfoldable pub all_stats : Dict FailoverConfig → Dict Service → List FailoverStats
all_stats [] services = []
all_stats ((name, config) ∷ configs) services =
    let rest = all_stats configs services in
    elim (get name services) [ none ↦ rest | some v ↦ v.stats ∷ rest ]

unfoldable pub get_all_failover_status : FailoverManager → StatusReport
get_all_failover_status m =
    let stats = all_stats m.failover_configs m.services in
    record {
      total_services = length stats;
      healthy_services = length (filter (λ (s : FailoverStats). is_healthy_status s.status) stats);
      degraded_services = length (filter (λ (s : FailoverStats). is_degraded s.status) stats);
      failed_services = length (filter (λ (s : FailoverStats). is_failed s.status) stats);
    }
