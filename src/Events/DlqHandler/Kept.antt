-- ===== src/Events/DlqHandler/Kept.antt =====
-- What stays in the dead-letter queue: a round without a delivery loses nothing, and a clean-up
-- removes the expired events only.
use multi_ai_agent.Prelude.{
  ℕ, ◌+◌, ◌-◌, ◌≤◌, ◌<◌, ◌≡◌, refl, ap, ◌∙◌, Bool, true, false, ◌==◌, List, [], ◌∷◌, map, String,
  length, filter, length-filter-le, ltb, ltb→lt, Result, ok, err, All, arith, inl, inr, Bool-cases,
}
use multi_ai_agent.Events.Lock.{done}
use multi_ai_agent.Events.DlqHandler.{
  DlqHandler, DlqEntry, DlqConfig, events_to_retry, postpone, change, settle_retry, process_retries,
  is_kept, drop_expired, cleanup_expired_events,
}
use multi_ai_agent.Events.DlqHandler.Retries.{Ready, settle_all, process_retries-Ready}

module _ {Ev : Type 0} where
  -- the dicts in the queue, in order
  abbrev pub refs : List (DlqEntry Ev) → List ℕ
  refs es = map (λ e. e.ref) es

  refs-change :
      (r : ℕ) (config : DlqConfig) (now : ℕ) (es : List (DlqEntry Ev))
      → refs (change r (postpone config now) es) ≡ refs es
  refs-change r config now [] = refl
  refs-change r config now (e ∷ es) = elim (Bool-cases (e.ref == r)) [
    | inl p ↦ rw (p) (ap (λ l. e.ref ∷ l) (refs-change r config now es))
    | inr p ↦ rw (p) (ap (λ l. e.ref ∷ l) (refs-change r config now es))
  ]

  settle_retry-refs :
      (r : Result String Bool) (h : DlqHandler Ev) (index : ℕ) (e : DlqEntry Ev) (now : ℕ)
      → ¬ (r ≡ ok true)
      → refs (settle_retry r h index e now).dlq_events ≡ refs h.dlq_events
  settle_retry-refs (ok true) h index e now never = absurd (never refl)
  settle_retry-refs (ok false) h index e now never =
      elim (Bool-cases (ltb index (length h.dlq_events))) [
        | inl p ↦ rw (p) (refs-change e.ref h.config now h.dlq_events)
        | inr p ↦ rw (p) refl
      ]
  settle_retry-refs (err m) h index e now never = refl

  module _ (publish : Ev → Result String Bool) where
    settle_all-refs :
        (h : DlqHandler Ev) (l : List (ℕ × DlqEntry Ev)) (now : ℕ)
        → ((ev : Ev) → ¬ (publish ev ≡ ok true))
        → refs (settle_all publish h l now).dlq_events ≡ refs h.dlq_events
    unfolding settle_all
    settle_all-refs h [] now never = refl
    settle_all-refs h ((i, e) ∷ l) now never =
        settle_all-refs (settle_retry (publish e.event) h i e now) l now never
        ∙ settle_retry-refs (publish e.event) h i e now (never e.event)

    -- A round of a handler with a bus, automatic retries and a free lock, in which the bus delivers no
    -- event, ends with every event still in the queue, in the
    -- same order.
    pub process_retries_undelivered :
        (h : DlqHandler Ev) (now : ℕ)
        → Ready h
        → ((ev : Ev) → ¬ (publish ev ≡ ok true))
        → (h' : DlqHandler Ev) × (process_retries publish h now ≡ done h' tt)
          × (refs h'.dlq_events ≡ refs h.dlq_events)
    process_retries_undelivered h now ready never = (
      settle_all publish h (events_to_retry h.config now 0 h.dlq_events) now,
      process_retries-Ready publish h now ready,
      settle_all-refs h (events_to_retry h.config now 0 h.dlq_events) now never,
    )

  length-filter :
      (p : DlqEntry Ev → Bool) (xs : List (DlqEntry Ev)) → length (filter p xs) ≤ length xs
  length-filter p xs = length-filter-le p xs

  filter-filter :
      (p : DlqEntry Ev → Bool) (xs : List (DlqEntry Ev)) → filter p (filter p xs) ≡ filter p xs
  filter-filter p [] = refl
  filter-filter p (x ∷ xs) = elim (Bool-cases (p x)) [
    | inl h ↦ rw (h, h) (ap (λ l. x ∷ l) (filter-filter p xs))
    | inr h ↦ rw (h) (filter-filter p xs)
  ]

  filter-InTime :
      (config : DlqConfig) (now : ℕ) (xs : List (DlqEntry Ev))
      → All (λ e. now < e.timestamp + config.retention_period) (filter (is_kept config now) xs)
  filter-InTime config now [] = tt
  filter-InTime config now (x ∷ xs) = elim (Bool-cases (is_kept config now x)) [
    | inl p ↦
        rw (p) (ltb→lt now (x.timestamp + config.retention_period) p, filter-InTime config now xs)
    | inr p ↦ rw (p) (filter-InTime config now xs)
  ]

  drop_expired-drop_expired :
      (h : DlqHandler Ev) (now : ℕ) → drop_expired (drop_expired h now) now ≡ drop_expired h now
  drop_expired-drop_expired h now =
      let kept = filter (is_kept h.config now) h.dlq_events in
      let none_left : h.stats.events_expired
            + (length h.dlq_events - length kept)
            + (length kept - length kept)
          ≡ h.stats.events_expired + (length h.dlq_events - length kept) =
        omega arith in
      rw (filter-filter (is_kept h.config now) h.dlq_events, none_left) refl

  cleanup_unlocked :
      (h : DlqHandler Ev) (now : ℕ)
      → h.lock_held ≡ false
      → cleanup_expired_events h now ≡ done (drop_expired h now) tt
  unfolding cleanup_expired_events
  cleanup_unlocked h now free = simp (free) refl

  -- A clean-up of a handler that is not locked for ever ends; the events lost from the queue are
  -- those counted as expired, each one left is within the retention period, and a second clean-up
  -- at the same time finds nothing to do.
  pub cleanup_expired_events_outcome :
      (h : DlqHandler Ev) (now : ℕ)
      → h.lock_held ≡ false
      → (h' : DlqHandler Ev) × (cleanup_expired_events h now ≡ done h' tt)
        × (h'.stats.events_expired + length h'.dlq_events
            ≡ h.stats.events_expired + length h.dlq_events)
        × All (λ e. now < e.timestamp + h.config.retention_period) h'.dlq_events
        × (cleanup_expired_events h' now ≡ done h' tt)
  cleanup_expired_events_outcome h now free = (
    drop_expired h now,
    cleanup_unlocked h now free,
    omega (arith, length-filter (is_kept h.config now) h.dlq_events),
    filter-InTime h.config now h.dlq_events,
    cleanup_unlocked (drop_expired h now) now free
        ∙ ap (λ k. done k tt) (drop_expired-drop_expired h now),
  )
