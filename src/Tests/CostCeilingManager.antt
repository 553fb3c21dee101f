-- ===== src/Tests/CostCeilingManager.antt =====
-- Costs under a daily ceiling of libs/performance/cost_ceiling_manager.py.
use multi_ai_agent.Prelude.{
  ℕ, ◌+◌, ◌≡◌, refl, true, false, not, some, none, List, [], ◌∷◌, ok, err, leb, arith,
}
use multi_ai_agent.Prelude.Dict.{get, put}
use multi_ai_agent.Performance.CostCeilingManager.{
  daily, llm_tokens, CostCeiling, CostCeilingManager, division_by_zero, Calendar,
  create_cost_ceiling, total_spending, cache_key, record_cost, get_cost_ceiling,
  get_current_spending, spending_of, check_ceiling_violations, new_alerts, alert_of, warning,
  critical,
}
use multi_ai_agent.Performance.CostCeilingManager.Spending.{
  sum, verdicts, record_all, costs_miscounted,
}

-- the first of January, in seconds
abbrev calendar : Calendar
calendar = record { window_key = λ t now. "20250101"; start_time = λ t now. 0 }

abbrev empty : CostCeilingManager
empty = record {
  ceiling_cache = [];
  spending_cache = [];
  cost_ceilings = [];
  cost_records = [];
  cost_alerts = [];
}

abbrev created : CostCeilingManager × CostCeiling
created = create_cost_ceiling "c1" "tokens" daily llm_tokens 1000 (some "acme") none none empty

abbrev costs : List (ℕ × ℕ)
costs = (100, 70) ∷ (100, 80) ∷ []

created_cached : get "c1" created.0.ceiling_cache ≡ some created.1
unfolding create_cost_ceiling get put
created_cached = refl

created_limit : created.1.limit_amount ≡ 1000
unfolding create_cost_ceiling
created_limit = refl

-- Costs of 500, 100 and 100 under a limit of 1000.
second_is_blocked :
    (record_all calendar "c1" "acme" "router" llm_tokens ((500, 60) ∷ costs) created.0).1
    ≡ ok true ∷ ok false ∷ ok false ∷ []
unfolding record_all create_cost_ceiling record_cost get put get_cost_ceiling
    check_ceiling_violations get_current_spending spending_of total_spending
second_is_blocked = refl

alerts :
    new_alerts created.1 created.1.alert_thresholds 960 70
    ≡ alert_of created.1 warning 960 70 ∷ alert_of created.1 critical 960 70 ∷ []
unfolding create_cost_ceiling new_alerts
alerts = refl

no_limit :
    (check_ceiling_violations (record created.1 { limit_amount = 0 }) 5 70 empty).1
    ≡ err division_by_zero
unfolding check_ceiling_violations
no_limit = refl

costs_miscounted_example :
    let (m', found) =
      record_all calendar "c1" "acme" "router" llm_tokens ((500, 60) ∷ costs) created.0 in
    (get (cache_key calendar "c1" created.1 60) m'.spending_cache
      ≡ some (total_spending "c1" 0 60 [] + 500 + 500 + sum costs))
    × (found
        ≡ ok (not (leb created.1.limit_amount (total_spending "c1" 0 60 [] + 500)))
          ∷ verdicts created.1.limit_amount (total_spending "c1" 0 60 [] + 500 + 500) costs)
unfolding create_cost_ceiling get
costs_miscounted_example =
    costs_miscounted calendar "c1" created.1 "acme" "router" llm_tokens refl 500 60 costs created.0
      created_cached refl (omega arith) (refl, (refl, tt))
