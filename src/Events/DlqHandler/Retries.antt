-- ===== src/Events/DlqHandler/Retries.antt =====
-- One round of the retries of the dead-letter queue, and the retry by hand.
use multi_ai_agent.Prelude.{
  ℕ, suc, ◌+◌, ◌≡◌, refl, ap, ◌∙◌, Bool, true, false, ◌==◌, List, [], ◌∷◌, ◌++◌, String, length,
  length-append, All, arith, ltb, lt→ltb, Result, ok, err,
}
use multi_ai_agent.Events.Lock.{done, and_then}
use multi_ai_agent.Events.DlqHandler.{
  DlqHandler, DlqEntry, DlqConfig, is_due, events_to_retry, postpone, change, pop, settle_retry,
  settle_locked, retry_event, retry_events, process_retries,
}

module _ {Ev : Type 0} where
  abbrev pub NotDue : DlqConfig → ℕ → DlqEntry Ev → Type 0
  NotDue config now e = is_due config now e ≡ false

  -- what makes a round run, and the clock at which it runs
  pub record Ready (h : DlqHandler Ev) : Type 0 where
    pub bus : h.has_event_bus ≡ true
    pub auto : h.config.enable_auto_retry ≡ true
    pub unlocked : h.lock_held ≡ false

  events_to_retry_none :
      (config : DlqConfig) (now i : ℕ) (es : List (DlqEntry Ev))
      → All (NotDue config now) es
      → events_to_retry config now i es ≡ []
  events_to_retry_none config now i [] h = refl
  events_to_retry_none config now i (e ∷ es) (h, hs) =
      rw (h) (events_to_retry_none config now (suc i) es hs)

  events_to_retry_one :
      (config : DlqConfig) (now i : ℕ) (xs : List (DlqEntry Ev)) (e : DlqEntry Ev)
      (ys : List (DlqEntry Ev))
      → All (NotDue config now) xs
      → is_due config now e ≡ true
      → All (NotDue config now) ys
      → events_to_retry config now i (xs ++ e ∷ ys) ≡ (i + length xs, e) ∷ []
  events_to_retry_one config now i [] e ys hx he hy =
      let here : i + 0 ≡ i = omega arith in
      rw (he, events_to_retry_none config now (suc i) ys hy, here) refl
  events_to_retry_one config now i (x ∷ xs) e ys (h, hx) he hy =
      let here : i + suc (length xs) ≡ suc i + length xs = omega arith in
      rw (h, events_to_retry_one config now (suc i) xs e ys hx he hy, here) refl

  pop-append :
      (xs : List (DlqEntry Ev)) (e : DlqEntry Ev) (ys : List (DlqEntry Ev))
      → pop (xs ++ e ∷ ys) (length xs) ≡ xs ++ ys
  pop-append [] e ys = refl
  pop-append (x ∷ xs) e ys = ap (λ l. x ∷ l) (pop-append xs e ys)

  -- another dict
  abbrev pub Other : DlqEntry Ev → DlqEntry Ev → Type 0
  Other e x = (x.ref == e.ref) ≡ false

  change_others :
      (e : DlqEntry Ev) (f : DlqEntry Ev → DlqEntry Ev) (xs : List (DlqEntry Ev))
      → All (Other e) xs
      → change e.ref f xs ≡ xs
  change_others e f [] h = refl
  change_others e f (x ∷ xs) (h, hs) = rw (h, change_others e f xs hs) refl

  change-append :
      (e : DlqEntry Ev) (f : DlqEntry Ev → DlqEntry Ev) (xs ys : List (DlqEntry Ev))
      → All (Other e) xs
      → All (Other e) ys
      → change e.ref f (xs ++ e ∷ ys) ≡ xs ++ f e ∷ ys
  change-append e f [] ys hx hy =
      let same : (e.ref == e.ref) ≡ true = ground arith in rw (same, change_others e f ys hy) refl
  change-append e f (x ∷ xs) ys (h, hx) hy = rw (h, change-append e f xs ys hx hy) refl

  -- the queue after a round in which only `e` was due
  abbrev pub settled :
      Result String Bool
      → DlqConfig
      → ℕ
      → List (DlqEntry Ev)
      → DlqEntry Ev
      → List (DlqEntry Ev)
      → List (DlqEntry Ev)
  settled (ok true) config now xs e ys = xs ++ ys
  settled (ok false) config now xs e ys = xs ++ postpone config now e ∷ ys
  settled (err m) config now xs e ys = xs ++ e ∷ ys

  inside :
      (xs : List (DlqEntry Ev)) (e : DlqEntry Ev) (ys : List (DlqEntry Ev))
      → ltb (length xs) (length (xs ++ e ∷ ys)) ≡ true
  inside xs e ys =
      lt→ltb (length xs) (length (xs ++ e ∷ ys)) (omega (arith, length-append xs (e ∷ ys)))

  settle_retry-settled :
      (r : Result String Bool) (h : DlqHandler Ev) (now : ℕ) (xs : List (DlqEntry Ev))
      (e : DlqEntry Ev) (ys : List (DlqEntry Ev))
      → h.dlq_events ≡ xs ++ e ∷ ys
      → All (Other e) xs
      → All (Other e) ys
      → (settle_retry r h (length xs) e now).dlq_events ≡ settled r h.config now xs e ys
  settle_retry-settled (ok true) h now xs e ys q hx hy = rw (q, inside xs e ys) (pop-append xs e ys)
  settle_retry-settled (ok false) h now xs e ys q hx hy =
      rw (q, inside xs e ys) (change-append e (postpone h.config now) xs ys hx hy)
  settle_retry-settled (err m) h now xs e ys q hx hy = q

  settle_retry_lock :
      (r : Result String Bool) (h : DlqHandler Ev) (i : ℕ) (e : DlqEntry Ev) (now : ℕ)
      → (settle_retry r h i e now).lock_held ≡ h.lock_held
  settle_retry_lock (ok true) h i e now = refl
  settle_retry_lock (ok false) h i e now = refl
  settle_retry_lock (err m) h i e now = refl

  settle_locked_free :
      (r : Result String Bool) (h : DlqHandler Ev) (i : ℕ) (e : DlqEntry Ev) (now : ℕ)
      → h.lock_held ≡ false
      → settle_locked r h i e now ≡ done (settle_retry r h i e now) tt
  settle_locked_free (ok b) h i e now free = simp (free) refl
  settle_locked_free (err m) h i e now free = refl

  module _ (publish : Ev → Result String Bool) where
    -- the handler after the retries, when nobody holds the lock
    unfoldable pub settle_all : DlqHandler Ev → List (ℕ × DlqEntry Ev) → ℕ → DlqHandler Ev
    settle_all h [] now = h
    settle_all h ((index, entry) ∷ rest) now =
        settle_all (settle_retry (publish entry.event) h index entry now) rest now

    retry_events_free :
        (h : DlqHandler Ev) (l : List (ℕ × DlqEntry Ev)) (now : ℕ)
        → h.lock_held ≡ false
        → retry_events publish h l now ≡ done (settle_all h l now) tt
    unfolding retry_events retry_event settle_all
    retry_events_free h [] now free = refl
    retry_events_free h ((i, e) ∷ l) now free =
        ap (λ a. and_then a (λ h'. retry_events publish h' l now))
          (settle_locked_free (publish e.event) h i e now free)
        ∙ retry_events_free (settle_retry (publish e.event) h i e now) l now
            (settle_retry_lock (publish e.event) h i e now ∙ free)

    pub process_retries-Ready :
        (h : DlqHandler Ev) (now : ℕ)
        → Ready h
        → process_retries publish h now
          ≡ done (settle_all h (events_to_retry h.config now 0 h.dlq_events) now) tt
    unfolding process_retries
    process_retries-Ready h now ready =
        simp (ready.bus, ready.auto, ready.unlocked)
          (retry_events_free h (events_to_retry h.config now 0 h.dlq_events) now ready.unlocked)

    retry_events_list :
        (h : DlqHandler Ev) (now : ℕ) (l : List (ℕ × DlqEntry Ev))
        → Ready h
        → events_to_retry h.config now 0 h.dlq_events ≡ l
        → process_retries publish h now ≡ done (settle_all h l now) tt
    retry_events_list h now l ready p =
        process_retries-Ready h now ready ∙ ap (λ k. done (settle_all h k now) tt) p

    -- On a handler with a bus, automatic retries and a free lock, a round with one event due, whose dict no other entry shares, ends: a delivered event leaves
    -- the queue, one that was not delivered is postponed by the backoff and keeps its place, and
    -- when the publication raises nothing changes. The other events stay as they are.
    pub process_retries_one :
        (h : DlqHandler Ev) (now : ℕ) (xs : List (DlqEntry Ev)) (e : DlqEntry Ev)
        (ys : List (DlqEntry Ev))
        → Ready h
        → h.dlq_events ≡ xs ++ e ∷ ys
        → All (NotDue h.config now) xs
        → is_due h.config now e ≡ true
        → All (NotDue h.config now) ys
        → All (Other e) xs
        → All (Other e) ys
        → (h' : DlqHandler Ev) × (process_retries publish h now ≡ done h' tt)
          × (h'.dlq_events ≡ settled (publish e.event) h.config now xs e ys)
    unfolding settle_all
    process_retries_one h now xs e ys ready q hx he hy ox oy = (
      settle_retry (publish e.event) h (length xs) e now,
      (let here : 0 + length xs ≡ length xs = omega arith in
          retry_events_list h now ((length xs, e) ∷ []) ready (
            rw (q)
              (events_to_retry_one h.config now 0 xs e ys hx he hy ∙ ap (λ k. (k, e) ∷ []) here))),
      settle_retry-settled (publish e.event) h now xs e ys q ox oy,
    )

    -- On a handler with a bus, automatic retries and a free lock, when the first two of at least three
    -- events are due and no other one, and both are delivered, the round ends, leaves
    -- the second in the queue and removes the third, which was never published; both publications are
    -- counted.
    pub process_retries_wrong_event :
        (h : DlqHandler Ev) (now : ℕ) (a b c : DlqEntry Ev) (rest : List (DlqEntry Ev))
        → Ready h
        → h.dlq_events ≡ a ∷ b ∷ c ∷ rest
        → is_due h.config now a ≡ true
        → is_due h.config now b ≡ true
        → All (NotDue h.config now) (c ∷ rest)
        → publish a.event ≡ ok true
        → publish b.event ≡ ok true
        → (h' : DlqHandler Ev) × (process_retries publish h now ≡ done h' tt)
          × (h'.dlq_events ≡ b ∷ rest)
          × (h'.stats.events_processed ≡ h.stats.events_processed + 2)
    unfolding settle_all
    process_retries_wrong_event h now a b c rest ready q da db hn pa pb = (
      settle_retry (publish b.event) (settle_retry (publish a.event) h 0 a now) 1 b now,
      retry_events_list h now ((0, a) ∷ (1, b) ∷ []) ready
          (rw (q, da, db, events_to_retry_none h.config now 2 (c ∷ rest) hn) refl),
      (let first : ltb 0 (suc (suc (suc (length rest)))) ≡ true =
            lt→ltb 0 (suc (suc (suc (length rest)))) (omega arith) in
          let second : ltb 1 (suc (suc (length rest))) ≡ true =
            lt→ltb 1 (suc (suc (length rest))) (omega arith) in
          rw (pa, pb, q, first, second) refl),
      rw (pa, pb) (omega arith),
    )
