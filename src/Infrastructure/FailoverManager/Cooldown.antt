-- ===== src/Infrastructure/FailoverManager/Cooldown.antt =====
-- How often the checks of libs/infrastructure/failover_manager.py start a failover.
use multi_ai_agent.Prelude.{
  ℕ, ◌+◌, ◌*◌, ◌≤◌, ◌≡◌, refl, Bool, true, false, Option, none, some, String, arith, inl, inr,
  Bool-cases, Option-cases,
}
use multi_ai_agent.Infrastructure.FailoverManager.{
  FailoverConfig, FailoverStats, Health, Service, initial_stats, is_failing_over, within,
  should_trigger_failover, checked_unhealthy, trigger_failover, perform_health_check,
  select_backup_region, execute_failover,
}

mul_once : (n c : ℕ) → (n + 1) * c ≡ n * c + c
mul_once n c = omega arith

module _ (config : FailoverConfig) where
  -- A service that was registered at `start` and is watched until `now`: checks at times that do not
  -- go back, and ends of failover tasks.
  pub data Watched (start : ℕ) : ℕ → Service → Type 0 where
    registered : Watched start start (record { stats = initial_stats start; tasks = 0 })
    check :
        {now : ℕ} {v : Service} (h : Health) (primary_healthy steps : Bool) (later : ℕ)
        → now ≤ later
        → Watched start now v
        → Watched start later (perform_health_check config h primary_healthy steps later v)
    end_of_task :
        {now : ℕ} {v : Service} (region_healthy steps : String → Bool)
        → Watched start now v
        → Watched start now (execute_failover config region_healthy steps v)

  abbrev cooldown : ℕ
  cooldown = config.failover_cooldown_seconds

  -- the failovers so far, `last` being the time of the last one
  abbrev Spaced : ℕ → ℕ → ℕ → Option ℕ → Type 0
  Spaced start now count none = (count ≡ 0) × (start ≤ now)
  Spaced start now count (some last) =
      (count * cooldown + start ≤ last + cooldown) × (last ≤ now) × (start ≤ now)

  Spaced-later :
      (start now later count : ℕ) (last : Option ℕ)
      → now ≤ later
      → Spaced start now count last
      → Spaced start later count last
  Spaced-later start now later count none h s = (s.0, omega arith)
  Spaced-later start now later count (some last) h s = (s.0, omega arith, omega arith)

  Spaced-trigger :
      (start now count : ℕ) (last : Option ℕ)
      → Spaced start now count last
      → within last cooldown now ≡ false
      → Spaced start now (count + 1) (some now)
  Spaced-trigger start now count none s w = ground (arith, mul_once count cooldown)
  Spaced-trigger start now count (some last) s w = ground (arith, mul_once count cooldown)

  may_trigger :
      (h : Health) (now : ℕ) (s : FailoverStats)
      → should_trigger_failover config h now s ≡ true
      → (is_failing_over s.status ≡ false) × (within s.last_failover_time cooldown now ≡ false)
  unfolding should_trigger_failover
  may_trigger h now s e = ground arith

  abbrev pub SpacedService : ℕ → ℕ → Service → Type 0
  SpacedService start now v = Spaced start now v.stats.failover_count v.stats.last_failover_time

  check-Spaced :
      (start now : ℕ) (h : Health) (primary_healthy steps : Bool) (v : Service)
      → SpacedService start now v
      → SpacedService start now (perform_health_check config h primary_healthy steps now v)
  unfolding perform_health_check should_trigger_failover trigger_failover
  check-Spaced start now h primary_healthy steps v s = elim (Bool-cases h.is_healthy) [
    | inl p ↦ rw p s
    | inr p ↦
        elim (Bool-cases (should_trigger_failover config h now (checked_unhealthy h now v.stats))) [
          | inr q ↦ rw (p, q) s
          | inl q ↦
              (let (idle, cooled) = may_trigger h now (checked_unhealthy h now v.stats) q in
                rw (p, q, trigger_failover, idle)
                  (Spaced-trigger start now v.stats.failover_count v.stats.last_failover_time s
                    cooled))
        ]
  ]

  end-Spaced :
      (start now : ℕ) (region_healthy steps : String → Bool) (v : Service)
      → SpacedService start now v
      → SpacedService start now (execute_failover config region_healthy steps v)
  unfolding execute_failover
  end-Spaced start now region_healthy steps v s =
      elim (Option-cases (select_backup_region region_healthy config.backup_regions)) [
        | inl e ↦ rw (execute_failover, e) s
        | inr (r, e) ↦ elim (Bool-cases (steps r)) [
          | inl p ↦ rw (execute_failover, e, p) s
          | inr p ↦ rw (execute_failover, e, p) s
        ]
      ]

  Watched-Spaced :
      (start : ℕ) {now : ℕ} {v : Service} → Watched start now v → SpacedService start now v
  Watched-Spaced start registered = (refl, omega arith)
  Watched-Spaced start (check {now} {v} h primary_healthy steps later le w) =
      check-Spaced start later h primary_healthy steps v (
        Spaced-later start now later v.stats.failover_count v.stats.last_failover_time le
          (Watched-Spaced start w))
  Watched-Spaced start (end_of_task {now} {v} region_healthy steps w) =
      end-Spaced start now region_healthy steps v (Watched-Spaced start w)

  Spaced-bound :
      (start now count : ℕ) (last : Option ℕ)
      → Spaced start now count last
      → count * cooldown + start ≤ now + cooldown
  Spaced-bound start now count none s = rw s.0 (omega (arith, s.1))
  Spaced-bound start now count (some last) s = omega arith

-- Whatever the checks find and however the failover tasks end, the checks of a service that were made
-- until `now`, at times that do not go back, have started at most one failover, and one more for each
-- cooldown that has passed since it was registered.
pub failovers_bound :
    (config : FailoverConfig) (start now : ℕ) (v : Service)
    → Watched config start now v
    → v.stats.failover_count * config.failover_cooldown_seconds + start
      ≤ now + config.failover_cooldown_seconds
failovers_bound config start now v w =
    Spaced-bound config start now v.stats.failover_count v.stats.last_failover_time
      (Watched-Spaced config start w)
