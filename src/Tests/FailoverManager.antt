-- ===== src/Tests/FailoverManager.antt =====
-- The failover of libs/infrastructure/failover_manager.py for a service that is checked every 30 s.
use multi_ai_agent.Prelude.{◌+◌, ◌*◌, ◌≤◌, ◌≡◌, refl, true, false, none, some, [], ◌∷◌, arith}
use multi_ai_agent.Infrastructure.FailoverManager.{
  FailoverConfig, Health, Service, medium, initial_stats, trigger_failover, perform_health_check,
}
use multi_ai_agent.Infrastructure.FailoverManager.Runs.{
  Inv, Reach-Inv, registered, check, by_hand, failover_beside,
}
use multi_ai_agent.Infrastructure.FailoverManager.Cooldown.{Watched, failovers_bound}
use multi_ai_agent.Infrastructure.FailoverManager.Cooldown as Cooldown
use multi_ai_agent.Infrastructure.FailoverManager.Threshold.{run_checks, failover_at_threshold}

abbrev api : FailoverConfig
api = record {
  service_name = "api";
  primary_region = "eu";
  backup_regions = "us" ∷ "ap" ∷ [];
  failover_triggers = [];
  health_check_interval_seconds = 30;
  failover_threshold_seconds = 60;
  recovery_threshold_seconds = 300;
  max_failover_attempts = 3;
  failover_cooldown_seconds = 300;
  priority = medium;
  auto_recovery = true;
}

abbrev bad : Health
bad = record {
  is_healthy = false;
  error = some "Service unavailable";
  latency_ms = some 2000;
  error_rate = some 30;
  cpu_usage = some 97;
  memory_usage = some 97;
}

abbrev good : Health
good = record bad { is_healthy = true; error = none }

abbrev fresh : Service
fresh = record { stats = initial_stats 0; tasks = 0 }

Reach-Inv_example :
    Inv api 0 (trigger_failover 40 (perform_health_check api bad false false 30 fresh))
Reach-Inv_example = Reach-Inv api (by_hand 40 (check bad false false 30 (registered 0)))

failover_beside_example :
    (trigger_failover 90
      (perform_health_check api good false false 60 (trigger_failover 40 fresh))).tasks
    ≡ (trigger_failover 40 fresh).tasks + 1
failover_beside_example =
    failover_beside api good false false 60 90 (trigger_failover 40 fresh) refl

failovers_bound_example :
    (perform_health_check api bad false false 30 fresh).stats.failover_count * 300 + 0 ≤ 30 + 300
failovers_bound_example =
    failovers_bound api 0 30 (perform_health_check api bad false false 30 fresh)
      (Cooldown.check bad false false 30 (omega arith) Cooldown.registered)

failover_at_threshold_example :
    (run_checks api ((bad, 30) ∷ (bad, 60) ∷ []) fresh).stats.failover_count ≡ 1
failover_at_threshold_example =
    failover_at_threshold api 0 ((bad, 30) ∷ (bad, 60) ∷ []) (omega arith) (omega arith)
      ((refl, refl), ((refl, refl), tt)) (omega arith)
