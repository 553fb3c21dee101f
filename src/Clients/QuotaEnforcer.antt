-- ===== src/Clients/QuotaEnforcer.antt =====
-- libs/clients/quota_enforcer.py. `Answers` is what the database answers to the queries of one
-- request: each may raise, and those of the tenant and the plan do where SQLAlchemy refuses the plain
-- strings that they are written as. The quotas of a plan are natural numbers.
pub mod Decisions
use multi_ai_agent.Prelude.{
  ℕ, suc, ◌≡◌, Bool, true, false, Option, none, some, List, [], ◌∷◌, String, leb, ◌==◌,
  if◌then◌else◌, Result, ok, err, str_eq,
}
use multi_ai_agent.Prelude.Int.{ℤ, pos, negsuc}
use multi_ai_agent.Prelude.Dict.{Dict, get, put}

pub record Answers : Type 0 where
  -- whether a row is found
  pub tenant : Result String Bool
  -- the quotas of the row found
  pub plan : Result String (Option (Dict ℕ))
  pub messages : Result String (Option ℕ)
  pub customers : Result String (Option ℕ)
  pub agents : Result String (Option ℕ)

pub record QuotaCheck : Type 0 where
  pub allowed : Bool
  pub reason : String
  pub quota_type : String
  pub current_usage : ℕ
  pub quota_limit : ℤ

abbrev pub quota_types : List String
quota_types = "max_messages_per_month" ∷ "max_customers" ∷ "max_agents" ∷ "max_storage_mb" ∷ []

abbrev verdict : Bool → String → ℤ → String → ℕ → QuotaCheck
verdict allowed reason quota_limit quota_type current_usage = record {
  allowed = allowed;
  reason = reason;
  quota_type = quota_type;
  current_usage = current_usage;
  quota_limit = quota_limit;
}

-- `quotas.get(quota_type, 0)`
abbrev pub limit_of : Option ℕ → ℕ
limit_of none = 0
limit_of (some n) = n

abbrev pub check_limit : ℕ → String → ℕ → QuotaCheck
check_limit quota_limit quota_type current_usage =
    if quota_limit == 0
    then verdict true "Unlimited quota" (negsuc 0) quota_type current_usage
    else if leb quota_limit current_usage
    then verdict false "Quota exceeded" (pos quota_limit) quota_type current_usage
    else verdict true "Within quota" (pos quota_limit) quota_type current_usage

abbrev check_plan : Result String (Option (Dict ℕ)) → String → ℕ → QuotaCheck
check_plan (ok (some quotas)) t usage = check_limit (limit_of (get t quotas)) t usage
check_plan (ok none) t usage = verdict false "Plan not found" (pos 0) t usage
check_plan (err e) t usage = verdict false "Quota check failed" (pos 0) t usage

abbrev check_tenant : Result String Bool → Answers → String → ℕ → QuotaCheck
check_tenant (ok true) answers t usage = check_plan answers.plan t usage
check_tenant (ok false) answers t usage = verdict false "Tenant not found" (pos 0) t usage
check_tenant (err e) answers t usage = verdict false "Quota check failed" (pos 0) t usage

unfoldable pub check_quota : Answers → String → ℕ → QuotaCheck
check_quota answers quota_type current_usage =
    check_tenant answers.tenant answers quota_type current_usage

-- `result.scalar() or 0`, and 0 for a query that raises
abbrev pub count_or_zero : Result String (Option ℕ) → ℕ
count_or_zero (ok (some n)) = n
count_or_zero (ok none) = 0
count_or_zero (err e) = 0

unfoldable pub get_message_usage : Answers → ℕ
get_message_usage answers = count_or_zero answers.messages

unfoldable pub get_customer_count : Answers → ℕ
get_customer_count answers = count_or_zero answers.customers

unfoldable pub get_agent_count : Answers → ℕ
get_agent_count answers = count_or_zero answers.agents

-- a placeholder in the code too
unfoldable pub get_storage_usage : Answers → ℕ
get_storage_usage answers = 0

unfoldable pub get_current_usage : Answers → String → ℕ
get_current_usage answers quota_type =
    if str_eq quota_type "max_messages_per_month"
    then get_message_usage answers
    else if str_eq quota_type "max_customers"
    then get_customer_count answers
    else if str_eq quota_type "max_agents"
    then get_agent_count answers
    else if str_eq quota_type "max_storage_mb"
    then get_storage_usage answers
    else 0

unfoldable pub enforce_quota : Answers → String → Bool
enforce_quota answers quota_type =
    let quota_check = check_quota answers quota_type (get_current_usage answers quota_type) in
    if quota_check.allowed then true else false

pub record Status : Type 0 where
  pub current_usage : ℕ
  pub quota_limit : ℤ
  pub allowed : Bool
  pub reason : String

abbrev pub status_of : Answers → String → Status
status_of answers quota_type =
    let current_usage = get_current_usage answers quota_type in
    let quota_check = check_quota answers quota_type current_usage in
    record {
      current_usage = current_usage;
      quota_limit = quota_check.quota_limit;
      allowed = quota_check.allowed;
      reason = quota_check.reason;
    }

abbrev status_of_all : Answers → List String → Dict Status → Dict Status
status_of_all answers [] status = status
status_of_all answers (t ∷ types) status =
    status_of_all answers types (put t (status_of answers t) status)

unfoldable pub get_quota_status : Answers → Dict Status
get_quota_status answers = status_of_all answers quota_types []
