-- ===== src/Tests/QuotaEnforcer.antt =====
-- The quotas of libs/clients/quota_enforcer.py for a plan with two of them.
use multi_ai_agent.Prelude.{
  ℕ, ◌≡◌, ◌↔◌, refl, true, false, Option, none, some, [], ◌∷◌, String, Result, ok, err, All,
}
use multi_ai_agent.Prelude.Dict.{Dict, get}
use multi_ai_agent.Clients.QuotaEnforcer.{
  Answers, enforce_quota, get_current_usage, get_quota_status, status_of, quota_types, check_quota,
  get_message_usage, get_customer_count,
}
use multi_ai_agent.Clients.QuotaEnforcer.Decisions.{
  Entitled, enforce_quota-Entitled, get_quota_status-enforce_quota, enforce_quota_unread,
}

abbrev basic : Dict ℕ
basic = ("max_messages_per_month", 100) ∷ ("max_customers", 5) ∷ []

abbrev busy : Result String (Option ℕ) → Answers
busy messages = record {
  tenant = ok true;
  plan = ok (some basic);
  messages = messages;
  customers = ok (some 5);
  agents = ok none;
}

enforce_quota_basic :
    (enforce_quota (busy (ok (some 99))) "max_messages_per_month" ≡ true)
    × (enforce_quota (busy (ok (some 99))) "max_customers" ≡ false)
unfolding enforce_quota check_quota get_current_usage get_message_usage get_customer_count get
enforce_quota_basic = (refl, refl)

enforce_quota-Entitled_run :
    (enforce_quota (busy (ok (some 99))) "max_customers" ≡ true)
    ↔ Entitled
        (busy (ok (some 99)))
        "max_customers"
        (get_current_usage (busy (ok (some 99))) "max_customers")
enforce_quota-Entitled_run = enforce_quota-Entitled (busy (ok (some 99))) "max_customers"

status_agrees :
    All
      (λ t.
        (get t (get_quota_status (busy (ok none))) ≡ some (status_of (busy (ok none)) t))
        × ((status_of (busy (ok none)) t).allowed ≡ enforce_quota (busy (ok none)) t))
      quota_types
status_agrees = get_quota_status-enforce_quota (busy (ok none))

enforce_quota_unread_run : enforce_quota (busy (err "timeout")) "max_messages_per_month" ≡ true
enforce_quota_unread_run =
    enforce_quota_unread (busy (err "timeout")) basic "timeout" refl refl refl
