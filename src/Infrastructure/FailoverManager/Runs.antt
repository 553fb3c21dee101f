-- ===== src/Infrastructure/FailoverManager/Runs.antt =====
-- What any sequence of checks and failovers keeps, for one service of
-- libs/infrastructure/failover_manager.py.
use multi_ai_agent.Prelude.{
  ℕ, suc, ◌+◌, ◌<◌, ◌≡◌, refl, Bool, true, String, arith, inl, inr, Bool-cases, Option-cases, ◌⊎◌,
}
use multi_ai_agent.Infrastructure.FailoverManager.{
  FailoverConfig, Health, Service, healthy, failed, failing_over, initial_stats,
  should_trigger_failover, trigger_failover, perform_health_check, select_backup_region,
  execute_failover, checked_unhealthy,
}

module _ (config : FailoverConfig) where
  -- A service after the checks, the failovers by hand and the ends of failover tasks so far. Whatever
  -- the checks find; a task ends only if one runs. `ended` counts the tasks that have ended.
  pub data Reach : ℕ → Service → Type 0 where
    registered : (now : ℕ) → Reach 0 (record { stats = initial_stats now; tasks = 0 })
    check :
        {ended : ℕ} {v : Service} (h : Health) (primary_healthy steps : Bool) (now : ℕ)
        → Reach ended v
        → Reach ended (perform_health_check config h primary_healthy steps now v)
    by_hand :
        {ended : ℕ} {v : Service} (now : ℕ) → Reach ended v → Reach ended (trigger_failover now v)
    end_of_task :
        {ended : ℕ} {v : Service} (region_healthy steps : String → Bool)
        → 0 < v.tasks
        → Reach ended v
        → Reach (suc ended) (execute_failover config region_healthy steps v)

  pub record Inv (ended : ℕ) (v : Service) : Type 0 where
    pub no_recovery : v.stats.recovery_count ≡ 0
    pub account : v.stats.failover_count ≡ ended + v.tasks
    pub in_progress : v.stats.status ≡ failing_over → 0 < v.tasks
    pub status :
        (v.stats.status ≡ healthy) ⊎ (v.stats.status ≡ failed) ⊎ (v.stats.status ≡ failing_over)

  trigger_failover-Inv :
      (ended now : ℕ) (v : Service) → Inv ended v → Inv ended (trigger_failover now v)
  unfolding trigger_failover
  trigger_failover-Inv ended now v h = ground arith

  perform_health_check-Inv :
      (ended : ℕ) (h : Health) (primary_healthy steps : Bool) (now : ℕ) (v : Service)
      → Inv ended v
      → Inv ended (perform_health_check config h primary_healthy steps now v)
  unfolding perform_health_check should_trigger_failover
  perform_health_check-Inv ended h primary_healthy steps now v i = elim (Bool-cases h.is_healthy) [
    | inl p ↦ rw p (ground arith)
    | inr p ↦
        (let v' = record v { stats = checked_unhealthy h now v.stats } in
          let i' : Inv ended v' = ground arith in
          elim (Bool-cases (should_trigger_failover config h now v'.stats)) [
            | inl q ↦ rw (p, q) (trigger_failover-Inv ended now v' i')
            | inr q ↦ rw (p, q) i'
          ])
  ]

  execute_failover-Inv :
      (ended : ℕ) (region_healthy steps : String → Bool) (v : Service)
      → 0 < v.tasks
      → Inv ended v
      → Inv (suc ended) (execute_failover config region_healthy steps v)
  unfolding execute_failover
  execute_failover-Inv ended region_healthy steps v running i =
      elim (Option-cases (select_backup_region region_healthy config.backup_regions)) [
        | inl e ↦ rw (execute_failover, e) (ground arith)
        | inr (r, e) ↦ rw (execute_failover, e) (ground arith)
      ]

  -- Whatever the checks of a service find, whenever failovers are started by hand and however their
  -- tasks end: no recovery is ever attempted; every failover counted has ended or runs; the status is
  -- HEALTHY, FAILED or FAILING_OVER, and a task runs while it is FAILING_OVER.
  pub Reach-Inv : {ended : ℕ} {v : Service} → Reach ended v → Inv ended v
  Reach-Inv (registered now) = ground arith
  Reach-Inv (check {ended} {v} h primary_healthy steps now r) =
      perform_health_check-Inv ended h primary_healthy steps now v (Reach-Inv r)
  Reach-Inv (by_hand {ended} {v} now r) = trigger_failover-Inv ended now v (Reach-Inv r)
  Reach-Inv (end_of_task {ended} {v} region_healthy steps running r) =
      execute_failover-Inv ended region_healthy steps v running (Reach-Inv r)

  -- A check that finds the service healthy clears the mark of a failover that still runs, so that
  -- a failover by hand then starts a task beside those that run.
  pub failover_beside :
      (h : Health) (primary_healthy steps : Bool) (now later : ℕ) (v : Service)
      → h.is_healthy ≡ true
      → (trigger_failover later (perform_health_check config h primary_healthy steps now v)).tasks
        ≡ v.tasks + 1
  unfolding trigger_failover perform_health_check
  failover_beside h primary_healthy steps now later v healthy_ =
      rw (trigger_failover, perform_health_check, healthy_) refl
