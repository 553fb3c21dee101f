-- ===== src/Reliability/SagaManager/Registry/Cleanup.antt =====
-- What `cleanup_completed_sagas` removes, and what it keeps.
use multi_ai_agent.Prelude.{
  ℕ, ◌*◌, ◌≡◌, refl, Bool, false, Option, none, some, List, [], ◌∷◌, String, if◌then◌else◌, arith,
  str_eq, eq_iff, Bool-cases, inl, inr, any, ◌∙◌, ap, Option-cases,
}
use multi_ai_agent.Prelude.Dict
use multi_ai_agent.Prelude.Dict.{
  Dict, HasUniqueKeys, get-remove, remove-HasUniqueKeys, put-HasUniqueKeys,
}
use multi_ai_agent.Reliability.SagaManager.{SagaExecution}
use multi_ai_agent.Reliability.SagaManager.Registry.{
  SagaManager, cleanup_completed_sagas, remove_all, old_ids, is_old,
}

module _ {R : Type 0} where
  -- what is left at an id
  abbrev pub unless_old : ℕ → ℕ → Option (SagaExecution R) → Option (SagaExecution R)
  unless_old max_age now none = none
  unless_old max_age now (some x) = if is_old max_age now x then none else some x

  abbrev old_at : ℕ → ℕ → Option (SagaExecution R) → Bool
  old_at max_age now none = false
  old_at max_age now (some x) = is_old max_age now x

  get-remove_all :
      (ks : List String) (j : String) (d : Dict (SagaExecution R))
      → Dict.get j (remove_all ks d) ≡ (if any (λ k. str_eq k j) ks then none else Dict.get j d)
  get-remove_all [] j d = refl
  get-remove_all (k ∷ ks) j d =
      ground (arith, get-remove_all ks j (Dict.remove k d), get-remove k j d)

  contains-old_ids :
      (max_age now : ℕ) (j : String) (d : Dict (SagaExecution R))
      → HasUniqueKeys d
      → any (λ k. str_eq k j) (old_ids max_age now d) ≡ old_at max_age now (Dict.get j d)
  unfolding Dict.get
  contains-old_ids max_age now j [] h = refl
  contains-old_ids max_age now j ((k, x) ∷ d) h = elim (Bool-cases (str_eq k j)) [
    | inl p ↦
        (let same : k ≡ j = (eq_iff k j).0 p in
          let absent : Dict.get j d ≡ none = rw same at h.0 in
          let rest = contains-old_ids max_age now j d h.1 in
          elim (Bool-cases (is_old max_age now x)) [
            | inl q ↦ rw (q, p) (rw q)
            | inr q ↦ rw (q, p) (rw q (rest ∙ ap (old_at max_age now) absent))
          ])
    | inr p ↦
        (let rest = contains-old_ids max_age now j d h.1 in
          elim (Bool-cases (is_old max_age now x)) [
            | inl q ↦ rw (q, p) rest
            | inr q ↦ rw (q, p) rest
          ])
  ]

  -- A clean-up at the time `now` removes exactly the sagas that have ended more than the given
  -- number of hours before: a running or compensating saga, and one that ended later, stays as it
  -- is.
  pub get-cleanup_completed_sagas :
      (m : SagaManager R) (hours now : ℕ) (j : String)
      → HasUniqueKeys m.active_sagas
      → Dict.get j (cleanup_completed_sagas m hours now).active_sagas
        ≡ unless_old (hours * 3600) now (Dict.get j m.active_sagas)
  unfolding cleanup_completed_sagas
  get-cleanup_completed_sagas m hours now j h =
      rw
        (
          get-remove_all (old_ids (hours * 3600) now m.active_sagas) j m.active_sagas,
          contains-old_ids (hours * 3600) now j m.active_sagas h,
        )
        (elim (Option-cases (Dict.get j m.active_sagas)) [ inl e ↦ rw e | inr (x, e) ↦ rw e ])

  remove_all-HasUniqueKeys :
      (ks : List String) (d : Dict (SagaExecution R))
      → HasUniqueKeys d
      → HasUniqueKeys (remove_all ks d)
  remove_all-HasUniqueKeys [] d h = h
  remove_all-HasUniqueKeys (k ∷ ks) d h =
      remove_all-HasUniqueKeys ks (Dict.remove k d) (remove-HasUniqueKeys k d h)

  pub cleanup-HasUniqueKeys :
      (m : SagaManager R) (hours now : ℕ)
      → HasUniqueKeys m.active_sagas
      → HasUniqueKeys (cleanup_completed_sagas m hours now).active_sagas
  unfolding cleanup_completed_sagas
  cleanup-HasUniqueKeys m hours now h =
      remove_all-HasUniqueKeys (old_ids (hours * 3600) now m.active_sagas) m.active_sagas h
