-- ===== src/Clients/QuotaEnforcer/Decisions.antt =====
-- What the quota enforcer allows.
use multi_ai_agent.Prelude.{
  ℕ, ◌<◌, ◌≡◌, refl, sym, ◌∙◌, Bool, true, false, Option, none, some, String, Result, ok, err,
  arith, ◌↔◌, ◌⊎◌, inl, inr, Bool-cases, All,
}
use multi_ai_agent.Prelude.Dict.{Dict, get, put}
use multi_ai_agent.Clients.QuotaEnforcer.{
  Answers, quota_types, limit_of, check_limit, check_plan, check_tenant, check_quota,
  get_current_usage, get_message_usage, enforce_quota, status_of, get_quota_status,
}

-- The tenant and a plan are found, whose quota of this type is 0, which stands for no limit, or above
-- the usage.
pub record Entitled (answers : Answers) (quota_type : String) (usage : ℕ) : Type 0 where
  pub quotas : Dict ℕ
  pub tenant_found : answers.tenant ≡ ok true
  pub plan_found : answers.plan ≡ ok (some quotas)
  pub within : (limit_of (get quota_type quotas) ≡ 0) ⊎ (usage < limit_of (get quota_type quotas))

within_limit :
    (n : ℕ) (t : String) (usage : ℕ)
    → (check_limit n t usage).allowed ≡ true
    → (n ≡ 0) ⊎ (usage < n)
within_limit n t usage h = ground arith

allowed_limit :
    (n : ℕ) (t : String) (usage : ℕ)
    → (n ≡ 0) ⊎ (usage < n)
    → (check_limit n t usage).allowed ≡ true
allowed_limit n t usage h = ground arith

check_quota-allowed :
    (answers : Answers) (t : String) (usage : ℕ)
    → Entitled answers t usage
    → (check_quota answers t usage).allowed ≡ true
unfolding check_quota
check_quota-allowed answers t usage e =
    rw (e.tenant_found, e.plan_found) (allowed_limit (limit_of (get t e.quotas)) t usage e.within)

entitled_plan :
    (plan : Result String (Option (Dict ℕ))) (t : String) (usage : ℕ)
    → (check_plan plan t usage).allowed ≡ true
    → (quotas : Dict ℕ) × (plan ≡ ok (some quotas))
      × ((limit_of (get t quotas) ≡ 0) ⊎ (usage < limit_of (get t quotas)))
entitled_plan (ok (some quotas)) t usage h =
    (quotas, refl, within_limit (limit_of (get t quotas)) t usage h)
entitled_plan (ok none) t usage h = absurd cc
entitled_plan (err e) t usage h = absurd cc

entitled_tenant :
    (tenant : Result String Bool) (answers : Answers) (t : String) (usage : ℕ)
    → (check_tenant tenant answers t usage).allowed ≡ true
    → (tenant ≡ ok true) × ((check_plan answers.plan t usage).allowed ≡ true)
entitled_tenant (ok true) answers t usage h = (refl, h)
entitled_tenant (ok false) answers t usage h = absurd cc
entitled_tenant (err e) answers t usage h = absurd cc

enforce_quota-check_quota :
    (answers : Answers) (t : String)
    → enforce_quota answers t ≡ (check_quota answers t (get_current_usage answers t)).allowed
unfolding enforce_quota
enforce_quota-check_quota answers t =
    elim (Bool-cases (check_quota answers t (get_current_usage answers t)).allowed) [
      | inl p ↦ rw (p) refl
      | inr p ↦ rw (p) refl
    ]

-- Enforcing a quota allows a request exactly if the tenant and its plan are found, and the quota of
-- that type is 0 or above the usage read; it fails closed when the tenant or the plan cannot be read.
pub enforce_quota-Entitled :
    (answers : Answers) (t : String)
    → (enforce_quota answers t ≡ true) ↔ Entitled answers t (get_current_usage answers t)
unfolding check_quota
enforce_quota-Entitled answers t =
    let usage = get_current_usage answers t in
    (
      λ h.
          (let (found, p) =
              entitled_tenant answers.tenant answers t usage
                (sym (enforce_quota-check_quota answers t) ∙ h) in
            let (quotas, q, w) = entitled_plan answers.plan t usage p in
            record { quotas = quotas; tenant_found = found; plan_found = q; within = w }),
      λ e. enforce_quota-check_quota answers t ∙ check_quota-allowed answers t usage e,
    )

-- The status has an entry for each of the four quota types, which allows exactly what enforcing that
-- quota allows.
pub get_quota_status-enforce_quota :
    (answers : Answers)
    → All
        (λ t.
          (get t (get_quota_status answers) ≡ some (status_of answers t))
          × ((status_of answers t).allowed ≡ enforce_quota answers t))
        quota_types
unfolding get_quota_status get put
get_quota_status-enforce_quota answers = (
  (refl, sym (enforce_quota-check_quota answers "max_messages_per_month")),
  (
    (refl, sym (enforce_quota-check_quota answers "max_customers")),
    (
      (refl, sym (enforce_quota-check_quota answers "max_agents")),
      ((refl, sym (enforce_quota-check_quota answers "max_storage_mb")), tt),
    ),
  ),
)

-- When the count of the messages cannot be read, the quota of the messages allows every request of a
-- tenant whose plan is found, whatever that quota is.
pub enforce_quota_unread :
    (answers : Answers) (quotas : Dict ℕ) (e : String)
    → answers.messages ≡ err e
    → answers.tenant ≡ ok true
    → answers.plan ≡ ok (some quotas)
    → enforce_quota answers "max_messages_per_month" ≡ true
unfolding get_current_usage get_message_usage
enforce_quota_unread answers quotas e unread tenant plan =
    let usage : get_current_usage answers "max_messages_per_month" ≡ 0 = rw (unread) refl in
    let quota = limit_of (get "max_messages_per_month" quotas) in
    let within : (quota ≡ 0) ⊎ (0 < quota) = ground arith in
    (enforce_quota-Entitled answers "max_messages_per_month").1 (record {
      quotas = quotas;
      tenant_found = tenant;
      plan_found = plan;
      within = rw (usage) within;
    })
