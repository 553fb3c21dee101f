-- ===== src/Performance/CostCeilingManager/Spending.antt =====
-- What the spending cache of libs/performance/cost_ceiling_manager.py holds.
use multi_ai_agent.Prelude.{
  ℕ, ◌+◌, ◌≤◌, ◌≡◌, refl, sym, ap, ◌∙◌, Bool, true, false, not, none, some, List, [], ◌∷◌, ◌++◌,
  String, str_eq, eq_refl, arith, leb, ◌==◌, Result, ok, le→leb, All,
}
use multi_ai_agent.Prelude.Dict.{Dict, get, put, get-put}
use multi_ai_agent.Prelude.Counts.{or_zero}
use multi_ai_agent.Performance.CostCeilingManager.{
  CostType, CostCeiling, CostRecord, CostCeilingManager, Calendar, CostError, get_cost_ceiling,
  total_spending, cache_key, spending_of, get_current_spending, check_ceiling_violations,
  record_cost, new_record, store_record,
}

get_added :
    (key : String) (n amount : ℕ) (d : Dict ℕ)
    → get key d ≡ some n
    → get key (put key (or_zero (get key d) + amount) d) ≡ some (n + amount)
get_added key n amount d cached =
    rw (get-put key key (or_zero (get key d) + amount) d, eq_refl key, cached) refl

-- a record of the ceiling in the window is added to the total
total_spending-append_one :
    (ceiling_id : String) (from to : ℕ) (r : CostRecord)
    → str_eq r.ceiling_id ceiling_id ≡ true
    → leb from r.timestamp ≡ true
    → leb r.timestamp to ≡ true
    → (records : List CostRecord)
    → total_spending ceiling_id from to (records ++ r ∷ [])
      ≡ total_spending ceiling_id from to records + r.amount
unfolding total_spending
total_spending-append_one ceiling_id from to r same after before [] =
    ground (arith, same, after, before)
total_spending-append_one ceiling_id from to r same after before (r' ∷ records) =
    ground (arith, total_spending-append_one ceiling_id from to r same after before records)

unfoldable pub sum : List (ℕ × ℕ) → ℕ
sum [] = 0
sum ((amount, now) ∷ costs) = amount + sum costs

-- The verdicts when n is what the spending is taken for: a cost counts from the next one on.
unfoldable pub verdicts : ℕ → ℕ → List (ℕ × ℕ) → List (Result CostError Bool)
verdicts limit n [] = []
verdicts limit n ((amount, now) ∷ costs) =
    ok (not (leb limit n)) ∷ verdicts limit (n + amount) costs

module _ (calendar : Calendar) (ceiling_id tenant_id service : String) (cost_type : CostType) where
  unfoldable pub record_all :
      List (ℕ × ℕ) → CostCeilingManager → CostCeilingManager × List (Result CostError Bool)
  record_all [] m = (m, [])
  record_all ((amount, now) ∷ costs) m =
      let (m', verdict) =
        record_cost calendar ceiling_id tenant_id service cost_type amount now m in
      let (m'', verdicts) = record_all costs m' in (m'', verdict ∷ verdicts)

module _ (calendar : Calendar) (ceiling_id : String) (c : CostCeiling) where
  get_cost_ceiling_known :
      (m : CostCeilingManager)
      → get ceiling_id m.ceiling_cache ≡ some c
      → get_cost_ceiling ceiling_id m ≡ (m, some c)
  unfolding get_cost_ceiling
  get_cost_ceiling_known m known = rw (get_cost_ceiling, known) refl

  same_manager :
      (m : CostCeilingManager)
      → get ceiling_id m.ceiling_cache ≡ some c
      → (get_cost_ceiling ceiling_id m).0 ≡ m
  same_manager m known = ap (λ p. p.0) (get_cost_ceiling_known m known)

  found_ceiling :
      (m : CostCeilingManager)
      → get ceiling_id m.ceiling_cache ≡ some c
      → (get_cost_ceiling ceiling_id m).1 ≡ some c
  found_ceiling m known = ap (λ p. p.1) (get_cost_ceiling_known m known)

  get_current_spending_cached :
      (now n : ℕ) (m : CostCeilingManager)
      → get ceiling_id m.ceiling_cache ≡ some c
      → get (cache_key calendar ceiling_id c now) m.spending_cache ≡ some n
      → get_current_spending calendar ceiling_id now m ≡ (m, n)
  unfolding get_current_spending spending_of
  get_current_spending_cached now n m known cached =
      let same = same_manager m known in
      rw (get_current_spending, found_ceiling m known, same, spending_of, cached, same) refl

  get_current_spending_new :
      (now : ℕ) (m : CostCeilingManager)
      → get ceiling_id m.ceiling_cache ≡ some c
      → get (cache_key calendar ceiling_id c now) m.spending_cache ≡ none
      → let n =
          total_spending ceiling_id (calendar.start_time c.ceiling_type now) now m.cost_records in
        get_current_spending calendar ceiling_id now m ≡ (
          record m {
            spending_cache = put (cache_key calendar ceiling_id c now) n m.spending_cache;
          },
          n,
        )
  unfolding get_current_spending spending_of
  get_current_spending_new now m known cached =
      let same = same_manager m known in
      rw (get_current_spending, found_ceiling m known, same, spending_of, cached, same) refl

  module _ (tenant_id service : String) (cost_type : CostType)
      (limited : (c.limit_amount == 0) ≡ false) where
    -- a cost, by what its spending is found to be
    record_cost_spending :
        (amount now n : ℕ) (m m' : CostCeilingManager)
        → get ceiling_id m.ceiling_cache ≡ some c
        → get_current_spending calendar ceiling_id now
            (store_record (new_record ceiling_id tenant_id service cost_type amount now) m)
          ≡ (m', n)
        → get (cache_key calendar ceiling_id c now) m'.spending_cache ≡ some n
        → get ceiling_id m'.ceiling_cache ≡ some c
        → let (m'', verdict) =
            record_cost calendar ceiling_id tenant_id service cost_type amount now m in
          (get ceiling_id m''.ceiling_cache ≡ some c)
          × (get (cache_key calendar ceiling_id c now) m''.spending_cache ≡ some (n + amount))
          × (verdict ≡ ok (not (leb c.limit_amount n)))
    unfolding record_cost check_ceiling_violations
    record_cost_spending amount now n m m' known spending cached known' =
        rw
          (
            record_cost,
            found_ceiling m known,
            same_manager m known,
            ap (λ p. p.1) spending,
            ap (λ p. p.0) spending,
            check_ceiling_violations,
            limited,
          )
          (
            known',
            get_added (cache_key calendar ceiling_id c now) n amount m'.spending_cache cached,
            refl,
          )

    record_cached :
        (amount now n : ℕ) (m : CostCeilingManager)
        → get ceiling_id m.ceiling_cache ≡ some c
        → get (cache_key calendar ceiling_id c now) m.spending_cache ≡ some n
        → let (m', verdict) =
            record_cost calendar ceiling_id tenant_id service cost_type amount now m in
          (get ceiling_id m'.ceiling_cache ≡ some c)
          × (get (cache_key calendar ceiling_id c now) m'.spending_cache ≡ some (n + amount))
          × (verdict ≡ ok (not (leb c.limit_amount n)))
    record_cached amount now n m known cached =
        let m1 = store_record (new_record ceiling_id tenant_id service cost_type amount now) m in
        record_cost_spending amount now n m m1 known
          (get_current_spending_cached now n m1 known cached) cached known

    record_first :
        (amount now : ℕ) (m : CostCeilingManager)
        → get ceiling_id m.ceiling_cache ≡ some c
        → get (cache_key calendar ceiling_id c now) m.spending_cache ≡ none
        → calendar.start_time c.ceiling_type now ≤ now
        → let n =
            total_spending ceiling_id (calendar.start_time c.ceiling_type now) now m.cost_records in
          let (m', verdict) =
            record_cost calendar ceiling_id tenant_id service cost_type amount now m in
          (get ceiling_id m'.ceiling_cache ≡ some c)
          × (get (cache_key calendar ceiling_id c now) m'.spending_cache
              ≡ some (n + amount + amount))
          × (verdict ≡ ok (not (leb c.limit_amount (n + amount))))
    record_first amount now m known uncached started =
        let r = new_record ceiling_id tenant_id service cost_type amount now in
        let m1 = store_record r m in
        let from = calendar.start_time c.ceiling_type now in
        let key = cache_key calendar ceiling_id c now in
        let n = total_spending ceiling_id from now m.cost_records in
        let counted : total_spending ceiling_id from now (m.cost_records ++ r ∷ []) ≡ n + amount =
          total_spending-append_one ceiling_id from now r (eq_refl ceiling_id)
            (le→leb from now started) (le→leb now now (omega arith)) m.cost_records in
        let m2 : CostCeilingManager = record m1 {
          spending_cache = put key (n + amount) m1.spending_cache;
        } in
        let spending : get_current_spending calendar ceiling_id now m1 ≡ (m2, n + amount) =
          get_current_spending_new now m1 known uncached ∙ rw counted refl in
        record_cost_spending amount now (n + amount) m m2 known spending
          (rw (get-put key key (n + amount) m1.spending_cache, eq_refl key) refl) known

    record_all_cached :
        (key : String) (costs : List (ℕ × ℕ)) (n : ℕ) (m : CostCeilingManager)
        → All (λ (cost : ℕ × ℕ). cache_key calendar ceiling_id c cost.1 ≡ key) costs
        → get ceiling_id m.ceiling_cache ≡ some c
        → get key m.spending_cache ≡ some n
        → let (m', found) = record_all calendar ceiling_id tenant_id service cost_type costs m in
          (get key m'.spending_cache ≡ some (n + sum costs))
          × (found ≡ verdicts c.limit_amount n costs)
    unfolding record_all sum verdicts
    record_all_cached key [] n m within known cached = (cached ∙ ap some (omega arith), refl)
    record_all_cached key ((amount, now) ∷ costs) n m within known cached =
        let m' : CostCeilingManager =
          (record_cost calendar ceiling_id tenant_id service cost_type amount now m).0 in
        let step =
          record_cached amount now n m known (ap (λ k. get k m.spending_cache) within.0 ∙ cached) in
        let rest =
          record_all_cached key costs (n + amount) m' within.1 step.0
            (ap (λ k. get k m'.spending_cache) (sym within.0) ∙ step.1) in
        (rest.0 ∙ ap some (omega arith), rw (step.2, rest.1) refl)

    -- Costs in one window that is not cached yet, each verdict with the spending that it is about: the
    -- first cost is counted twice from the second one on, and no later cost counts in its own verdict.
    pub costs_miscounted :
        (amount now : ℕ) (costs : List (ℕ × ℕ)) (m : CostCeilingManager)
        → get ceiling_id m.ceiling_cache ≡ some c
        → get (cache_key calendar ceiling_id c now) m.spending_cache ≡ none
        → calendar.start_time c.ceiling_type now ≤ now
        → All
            (λ (cost : ℕ × ℕ).
              cache_key calendar ceiling_id c cost.1 ≡ cache_key calendar ceiling_id c now)
            costs
        → let stored =
            total_spending ceiling_id (calendar.start_time c.ceiling_type now) now m.cost_records in
          let (m', found) =
            record_all calendar ceiling_id tenant_id service cost_type ((amount, now) ∷ costs) m in
          (get (cache_key calendar ceiling_id c now) m'.spending_cache
            ≡ some (stored + amount + amount + sum costs))
          × (found
              ≡ ok (not (leb c.limit_amount (stored + amount)))
                ∷ verdicts c.limit_amount (stored + amount + amount) costs)
    unfolding record_all
    costs_miscounted amount now costs m known uncached started within =
        let m' : CostCeilingManager =
          (record_cost calendar ceiling_id tenant_id service cost_type amount now m).0 in
        let stored =
          total_spending ceiling_id (calendar.start_time c.ceiling_type now) now m.cost_records in
        let first = record_first amount now m known uncached started in
        let rest =
          record_all_cached (cache_key calendar ceiling_id c now) costs (stored + amount + amount)
            m' within first.0 first.1 in
        (rest.0, rw (first.2, rest.1) refl)
