-- ===== src/Infrastructure/FailoverManager/Threshold.antt =====
-- When the checks of libs/infrastructure/failover_manager.py start a failover, and to which region.
use multi_ai_agent.Prelude.{
  ℕ, suc, ◌+◌, ◌/◌, ◌≤◌, ◌<◌, ◌≡◌, refl, ap, ◌∙◌, Bool, true, false, none, some, List, [], ◌∷◌,
  ◌++◌, String, arith, inl, inr, Bool-cases, if◌then◌else◌, leb, ◌⊎◌, length, All,
}
use multi_ai_agent.Infrastructure.FailoverManager.{
  FailoverConfig, Health, Service, healthy, initial_stats, is_failing_over, within,
  should_trigger_failover, checked_unhealthy, trigger_failover, perform_health_check,
  select_backup_region, specific_trigger,
}

-- the failovers go to the first healthy region of the list
pub select_backup_region_first :
    (region_healthy : String → Bool) (regions : List String)
    → ((select_backup_region region_healthy regions ≡ none)
        × All (λ r. region_healthy r ≡ false) regions)
      ⊎ ((before : List String) × (r : String) × (after : List String) × (regions
            ≡ before ++ r ∷ after)
          × (select_backup_region region_healthy regions ≡ some r)
          × (region_healthy r ≡ true)
          × All (λ r. region_healthy r ≡ false) before)
unfolding select_backup_region
select_backup_region_first region_healthy [] = inl (refl, tt)
select_backup_region_first region_healthy (r ∷ regions) = elim (Bool-cases (region_healthy r)) [
  | inl p ↦ inr ([], r, regions, refl, rw p refl, p, tt)
  | inr p ↦ elim (select_backup_region_first region_healthy regions) [
    | inl (e, bad) ↦ inl (rw p e, (p, bad))
    | inr (before, s, after, e, q, good, bad) ↦
        inr (r ∷ before, s, after, ap (λ l. r ∷ l) e, rw p q, good, (p, bad))
  ]
]

module _ (config : FailoverConfig) where
  abbrev pub threshold : ℕ
  threshold = config.failover_threshold_seconds / config.health_check_interval_seconds

  -- a check that finds the service unhealthy, and no measurement that the triggers look at
  abbrev pub IsPlainFailure : Health → Type 0
  IsPlainFailure h = (h.is_healthy ≡ false) × (specific_trigger config h ≡ false)

  -- checks one after the other, at these times
  unfoldable pub run_checks : List (Health × ℕ) → Service → Service
  run_checks [] v = v
  run_checks ((h, now) ∷ checks) v =
      run_checks checks (perform_health_check config h false false now v)

  -- a service that has not failed over, with so many errors
  record Counting (errors : ℕ) (v : Service) : Type 0 where
    status : v.stats.status ≡ healthy
    last : v.stats.last_failover_time ≡ none
    count : v.stats.failover_count ≡ 0
    errors_so_far : v.stats.error_count ≡ errors

  -- a plain failure triggers once the errors reach the threshold
  plain_decides :
      (h : Health) (now errors : ℕ) (v : Service)
      → 0 < config.health_check_interval_seconds
      → IsPlainFailure h
      → Counting errors v
      → should_trigger_failover config h now (checked_unhealthy h now v.stats)
        ≡ leb threshold (suc errors)
  unfolding should_trigger_failover
  plain_decides h now errors v pos (bad, quiet) c =
      let running : is_failing_over v.stats.status ≡ false = ap is_failing_over c.status in
      let cool : within v.stats.last_failover_time config.failover_cooldown_seconds now ≡ false =
        ap (λ l. within l config.failover_cooldown_seconds now) c.last in
      ground (arith, running, cool, quiet, c.errors_so_far)

  no_checks :
      (checks : List (Health × ℕ)) (v : Service) → length checks ≡ 0 → run_checks checks v ≡ v
  unfolding run_checks
  no_checks [] v e = refl
  no_checks (c ∷ checks) v e = absurd (omega (arith, e))

  -- the check that is next, below the threshold and at it
  next_check :
      (h : Health) (now errors : ℕ) (v : Service) (b : Bool)
      → 0 < config.health_check_interval_seconds
      → IsPlainFailure h
      → Counting errors v
      → leb threshold (suc errors) ≡ b
      → let v' = record v { stats = checked_unhealthy h now v.stats } in
        perform_health_check config h false false now v
        ≡ (if b then trigger_failover now v' else v')
  unfolding perform_health_check should_trigger_failover
  next_check h now errors v b pos p c e =
      rw (perform_health_check, p.0, plain_decides h now errors v pos p c ∙ e) refl

  triggered :
      (now : ℕ) (v : Service)
      → v.stats.status ≡ healthy
      → (trigger_failover now v).stats.failover_count ≡ v.stats.failover_count + 1
  unfolding trigger_failover
  triggered now v e = rw (trigger_failover, e) refl

  counts :
      (checks : List (Health × ℕ)) (errors : ℕ) (v : Service)
      → 0 < config.health_check_interval_seconds
      → All (λ (c : Health × ℕ). IsPlainFailure c.0) checks
      → Counting errors v
      → errors < threshold
      → errors + length checks ≤ threshold
      → (run_checks checks v).stats.failover_count
        ≡ (if leb threshold (errors + length checks) then 1 else 0)
  unfolding run_checks
  counts [] errors v pos plain c below le = ground (arith, c.count)
  counts ((h, now) ∷ checks) errors v pos (p, plain) c below le =
      let v' = record v { stats = checked_unhealthy h now v.stats } in
      elim (Bool-cases (leb threshold (suc errors))) [
        | inl q ↦
            rw
              (
                run_checks,
                next_check h now errors v true pos p c q,
                no_checks checks (trigger_failover now v') (ground arith),
                triggered now v' c.status,
              )
              (ground (arith, c.count))
        | inr q ↦
            rw (run_checks, next_check h now errors v false pos p c q)
              (counts checks (suc errors) v' pos plain
                  (record {
                    status = c.status;
                    last = c.last;
                    count = c.count;
                    errors_so_far = omega (arith, c.errors_so_far);
                  })
                  (ground arith) (omega arith)
                ∙ ap (λ n. if leb threshold n then 1 else 0) (omega arith))
      ]

-- After the registration, unhealthy checks in a row start no failover while they are fewer than the
-- threshold over the interval, and the one that reaches that number starts one; the interval and the
-- number are positive, and no check finds a measurement that the configured triggers look at.
pub failover_at_threshold :
    (config : FailoverConfig) (start : ℕ) (checks : List (Health × ℕ))
    → 0 < config.health_check_interval_seconds
    → 0 < threshold config
    → All (λ (c : Health × ℕ). IsPlainFailure config c.0) checks
    → length checks ≤ threshold config
    → (run_checks config checks
        (record { stats = initial_stats start; tasks = 0 })).stats.failover_count
      ≡ (if leb (threshold config) (length checks) then 1 else 0)
failover_at_threshold config start checks pos some_ plain le =
    counts config checks 0 (record { stats = initial_stats start; tasks = 0 }) pos plain
      (record { status = refl; last = refl; count = refl; errors_so_far = refl }) some_
      (omega (arith, le))
    ∙ ap (λ n. if leb (threshold config) n then 1 else 0) (omega arith)
