-- ===== src/Performance/CostCeilingManager.antt =====
-- libs/performance/cost_ceiling_manager.py. Amounts are whole cents and thresholds hundredths. The
-- tables of the database are lists, and a query is what its SQL says. The window of a ceiling, with
-- its name and its start, is a parameter: the calendar.
pub mod Spending
use Prim.Native.String.{◌++◌ as ◌++ₛ◌}
use multi_ai_agent.Prelude.{
  ℕ, ◌+◌, ◌*◌, Bool, true, false, not, ◌&&◌, Option, none, some, List, [], ◌∷◌, ◌++◌, String,
  str_eq, leb, ◌==◌, if◌then◌else◌, Result, ok, err,
}
use multi_ai_agent.Prelude.Dict.{Dict, get, put}
use multi_ai_agent.Prelude.Counts.{or_zero}

pub data CostType : Type 0 where
  llm_tokens api_calls storage compute network custom : CostType

pub data CeilingType : Type 0 where
  daily weekly monthly quarterly yearly per_request per_tenant : CeilingType

pub data AlertLevel : Type 0 where
  info warning critical emergency : AlertLevel

pub record CostCeiling : Type 0 where
  pub ceiling_id : String
  pub name : String
  pub ceiling_type : CeilingType
  pub cost_type : CostType
  pub limit_amount : ℕ
  pub tenant_id : Option String
  pub service : Option String
  pub is_active : Bool
  pub alert_thresholds : List (AlertLevel × ℕ)

pub record CostRecord : Type 0 where
  pub ceiling_id : String
  pub tenant_id : String
  pub service : String
  pub cost_type : CostType
  pub amount : ℕ
  pub timestamp : ℕ

pub record CostAlert : Type 0 where
  pub ceiling_id : String
  pub alert_level : AlertLevel
  pub current_spending : ℕ
  pub limit_amount : ℕ
  pub triggered_at : ℕ

pub record CostCeilingManager : Type 0 where
  pub ceiling_cache : Dict CostCeiling
  pub spending_cache : Dict ℕ
  -- the tables
  pub cost_ceilings : List CostCeiling
  pub cost_records : List CostRecord
  pub cost_alerts : List CostAlert

-- `_get_time_window_key` and `_get_ceiling_start_time`
pub record Calendar : Type 0 where
  pub window_key : CeilingType → ℕ → String
  pub start_time : CeilingType → ℕ → ℕ

abbrev pub default_thresholds : List (AlertLevel × ℕ)
default_thresholds = (warning, 80) ∷ (critical, 95) ∷ (emergency, 100) ∷ []

-- An empty dict of thresholds is replaced like none.
abbrev or_thresholds : Option (List (AlertLevel × ℕ)) → List (AlertLevel × ℕ)
or_thresholds none = default_thresholds
or_thresholds (some []) = default_thresholds
or_thresholds (some (t ∷ thresholds)) = t ∷ thresholds

unfoldable pub create_cost_ceiling :
    String
    → String
    → CeilingType
    → CostType
    → ℕ
    → Option String
    → Option String
    → Option (List (AlertLevel × ℕ))
    → CostCeilingManager
    → CostCeilingManager × CostCeiling
create_cost_ceiling ceiling_id name ceiling_type cost_type limit_amount tenant_id service thresholds
      m =
    let ceiling : CostCeiling = record {
      ceiling_id = ceiling_id;
      name = name;
      ceiling_type = ceiling_type;
      cost_type = cost_type;
      limit_amount = limit_amount;
      tenant_id = tenant_id;
      service = service;
      is_active = true;
      alert_thresholds = or_thresholds thresholds;
    } in
    (
      record m {
        cost_ceilings = m.cost_ceilings ++ ceiling ∷ [];
        ceiling_cache = put ceiling_id ceiling m.ceiling_cache;
      },
      ceiling,
    )

-- `WHERE ceiling_id = :ceiling_id AND is_active = true`
unfoldable pub find_active : String → List CostCeiling → Option CostCeiling
find_active ceiling_id [] = none
find_active ceiling_id (c ∷ rows) =
    let rest = find_active ceiling_id rows in
    if str_eq c.ceiling_id ceiling_id && c.is_active then some c else rest

abbrev found_row :
    String → CostCeilingManager → Option CostCeiling → CostCeilingManager × Option CostCeiling
found_row ceiling_id m none = (m, none)
found_row ceiling_id m (some c) =
    (record m { ceiling_cache = put ceiling_id c m.ceiling_cache }, some c)

unfoldable pub get_cost_ceiling :
    String → CostCeilingManager → CostCeilingManager × Option CostCeiling
get_cost_ceiling ceiling_id m = elim (get ceiling_id m.ceiling_cache) [
  | some c ↦ (m, some c)
  | none ↦ found_row ceiling_id m (find_active ceiling_id m.cost_ceilings)
]

-- `SELECT COALESCE(SUM(amount), 0) ... WHERE ceiling_id = ... AND timestamp >= ... AND timestamp <= ...`
unfoldable pub total_spending : String → ℕ → ℕ → List CostRecord → ℕ
total_spending ceiling_id from to [] = 0
total_spending ceiling_id from to (r ∷ records) =
    let rest = total_spending ceiling_id from to records in
    if str_eq r.ceiling_id ceiling_id && leb from r.timestamp && leb r.timestamp to
    then r.amount + rest
    else rest

abbrev pub cache_key : Calendar → String → CostCeiling → ℕ → String
cache_key calendar ceiling_id c now =
    ceiling_id ++ₛ ("_" ++ₛ calendar.window_key c.ceiling_type now)

-- the spending in the window of now, which the call puts into the cache
unfoldable pub spending_of :
    Calendar → String → CostCeiling → ℕ → CostCeilingManager → CostCeilingManager × ℕ
spending_of calendar ceiling_id c now m =
    let key = cache_key calendar ceiling_id c now in
    elim (get key m.spending_cache) [
      | some n ↦ (m, n)
      | none ↦
          let n =
            total_spending ceiling_id (calendar.start_time c.ceiling_type now) now m.cost_records in
          (record m { spending_cache = put key n m.spending_cache }, n)
    ]

unfoldable pub get_current_spending :
    Calendar → String → ℕ → CostCeilingManager → CostCeilingManager × ℕ
get_current_spending calendar ceiling_id now m =
    let (m', found) = get_cost_ceiling ceiling_id m in
    elim found [ none ↦ (m', 0) | some c ↦ spending_of calendar ceiling_id c now m' ]

abbrev pub alert_of : CostCeiling → AlertLevel → ℕ → ℕ → CostAlert
alert_of c level spending now = record {
  ceiling_id = c.ceiling_id;
  alert_level = level;
  current_spending = spending;
  limit_amount = c.limit_amount;
  triggered_at = now;
}

-- an alert for each threshold that the spending has reached
unfoldable pub new_alerts : CostCeiling → List (AlertLevel × ℕ) → ℕ → ℕ → List CostAlert
new_alerts c [] spending now = []
new_alerts c ((level, threshold) ∷ thresholds) spending now =
    let rest = new_alerts c thresholds spending now in
    if leb (threshold * c.limit_amount) (spending * 100)
    then alert_of c level spending now ∷ rest
    else rest

pub data CostError : Type 0 where
  division_by_zero : CostError

-- A limit of 0 raises.
unfoldable pub check_ceiling_violations :
    CostCeiling → ℕ → ℕ → CostCeilingManager → CostCeilingManager × Result CostError (Unit {0})
check_ceiling_violations c spending now m =
    if c.limit_amount == 0 then (m, err division_by_zero) else (
      record m { cost_alerts = m.cost_alerts ++ new_alerts c c.alert_thresholds spending now },
      ok tt,
    )

abbrev pub store_record : CostRecord → CostCeilingManager → CostCeilingManager
store_record r m = record m { cost_records = m.cost_records ++ r ∷ [] }

abbrev pub add_to_cache : String → ℕ → CostCeilingManager → CostCeilingManager
add_to_cache key amount m = record m {
  spending_cache = put key (or_zero (get key m.spending_cache) + amount) m.spending_cache;
}

abbrev pub decide :
    CostCeiling
    → ℕ
    → CostCeilingManager × Result CostError (Unit {0})
    → CostCeilingManager × Result CostError Bool
decide c spending (m, ok u) = (m, ok (not (leb c.limit_amount spending)))
decide c spending (m, err e) = (m, err e)

abbrev pub new_record : String → String → String → CostType → ℕ → ℕ → CostRecord
new_record ceiling_id tenant_id service cost_type amount now = record {
  ceiling_id = ceiling_id;
  tenant_id = tenant_id;
  service = service;
  cost_type = cost_type;
  amount = amount;
  timestamp = now;
}

-- The record is stored before the spending is read, and is added to the cache after that.
unfoldable pub record_cost :
    Calendar
    → String
    → String
    → String
    → CostType
    → ℕ
    → ℕ
    → CostCeilingManager
    → CostCeilingManager × Result CostError Bool
record_cost calendar ceiling_id tenant_id service cost_type amount now m =
    let (m1, found) = get_cost_ceiling ceiling_id m in
    elim found [
      | none ↦ (m1, ok false)
      | some c ↦
          let m2 = store_record (new_record ceiling_id tenant_id service cost_type amount now) m1 in
          let (m3, spending) = get_current_spending calendar ceiling_id now m2 in
          let m4 = add_to_cache (cache_key calendar ceiling_id c now) amount m3 in
          decide c spending (check_ceiling_violations c spending now m4)
    ]
