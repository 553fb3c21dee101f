-- ===== src/Events/EventStore/Hang.antt =====
-- The batch size of the event store: the store that reaches it waits for its own lock.
use multi_ai_agent.Prelude.{
  ℕ, ◌+◌, ◌≤◌, ◌<◌, ◌≡◌, refl, ap, ◌∙◌, true, false, Option, List, [], ◌∷◌, ◌++◌, String, length,
  length-append, arith, leb, le→leb, leb→le, lt→leb_false, inl, inr, Bool-cases,
}
use multi_ai_agent.Events.Lock.{Awaited, done, stuck, and_then}
use multi_ai_agent.Events.EventStore.{
  EventStore, EventApi, Query, append, new_data, store_event, flush_events, get_event, get_events,
  get_events_by_correlation_id, delete_event, cleanup_old_events,
}
use multi_ai_agent.Events.EventStore.Statistics.{get_event_statistics}

module _ {Ev D : Type 0} (api : EventApi Ev D) where
  -- the operations that take the lock never end
  pub record Hangs (s : EventStore D) : Type 0 where
    pub store : (event : Ev) (now : ℕ) → store_event api s event now ≡ stuck s
    pub find : (id : String) → get_event api s id ≡ stuck s
    pub query : (q : Query) (limit offset : ℕ) → get_events api s q limit offset ≡ stuck s
    pub correlated : (id : String) → get_events_by_correlation_id api s id ≡ stuck s
    pub delete : (id : String) → delete_event api s id ≡ stuck s
    pub cleanup : (now : ℕ) → cleanup_old_events s now ≡ stuck s
    pub flush : flush_events s ≡ stuck s
    pub statistics : (from to : Option ℕ) → get_event_statistics api s from to ≡ stuck s

  lock_held-Hangs : (s : EventStore D) → s.lock_held ≡ true → Hangs s
  unfolding store_event get_event get_events get_events_by_correlation_id delete_event
      cleanup_old_events flush_events get_event_statistics
  lock_held-Hangs s l = record {
    store = λ event now. simp (l) refl;
    find = λ id. simp (l) refl;
    query = λ q limit offset. simp (l) refl;
    correlated = λ id. simp (l) refl;
    delete = λ id. simp (l) refl;
    cleanup = λ now. simp (l) refl;
    flush = simp (l) refl;
    statistics = λ from to. simp (l) refl;
  }

  pub store_event_below :
      (s : EventStore D) (event : Ev) (now : ℕ)
      → s.lock_held ≡ false
      → length s.events + 1 < s.config.batch_size
      → store_event api s event now ≡ done (append (new_data api event now) s) true
  unfolding store_event
  store_event_below s event now free h =
      let room : leb s.config.batch_size (length (s.events ++ new_data api event now ∷ []))
          ≡ false =
        lt→leb_false s.config.batch_size (length (s.events ++ new_data api event now ∷ []))
          (omega (arith, length-append s.events (new_data api event now ∷ []))) in
      simp (free, room) refl

  pub store_event_full :
      (s : EventStore D) (event : Ev) (now : ℕ)
      → s.lock_held ≡ false
      → s.config.batch_size ≤ length s.events + 1
      → store_event api s event now
        ≡ stuck (record (append (new_data api event now) s) { lock_held = true })
  unfolding store_event flush_events
  store_event_full s event now free h =
      let full : leb s.config.batch_size (length (s.events ++ new_data api event now ∷ [])) ≡ true =
        le→leb s.config.batch_size (length (s.events ++ new_data api event now ∷ []))
          (omega (arith, length-append s.events (new_data api event now ∷ []))) in
      simp (free, full) refl

  -- one event after the other
  abbrev pub store_all : EventStore D → List Ev → ℕ → Awaited (EventStore D) (Unit {0})
  store_all s [] now = done s tt
  store_all s (event ∷ events) now =
      and_then (store_event api s event now) (λ s'. store_all s' events now)

  -- While the events are fewer than the batch size, all of them are stored.
  pub store_all_below :
      (s : EventStore D) (events : List Ev) (now : ℕ)
      → s.lock_held ≡ false
      → length s.events + length events < s.config.batch_size
      → (s' : EventStore D) × (store_all s events now ≡ done s' tt)
        × (length s'.events ≡ length s.events + length events)
  store_all_below s [] now free h = (s, refl, omega arith)
  store_all_below s (event ∷ events) now free h =
      let first = store_event_below s event now free (omega arith) in
      let one = length-append s.events (new_data api event now ∷ []) in
      let (s', p, l) =
        store_all_below (append (new_data api event now) s) events now free (omega (arith, one)) in
      (s', ap (λ a. and_then a (λ t. store_all t events now)) first ∙ p, omega (arith, one, l))

  -- Storing at least one event after the other in a store whose lock is free hangs when they bring it
  -- to the batch size, however many follow: the lock stays held, and then storing, finding by id,
  -- querying, finding by correlation id, deleting, cleaning up, flushing and the statistics of the
  -- events never end.
  pub store_all-Hangs :
      (s : EventStore D) (events : List Ev) (now : ℕ)
      → s.lock_held ≡ false
      → 0 < length events
      → s.config.batch_size ≤ length s.events + length events
      → (s' : EventStore D) × (store_all s events now ≡ stuck s') × Hangs s'
  store_all-Hangs s [] now free some_event h = absurd (omega arith)
  store_all-Hangs s (event ∷ events) now free some_event h =
      elim (Bool-cases (leb s.config.batch_size (length s.events + 1))) [
        | inl p ↦
            (let at_batch = leb→le s.config.batch_size (length s.events + 1) p in
              let last = record (append (new_data api event now) s) { lock_held = true } in
              (
                last,
                ap (λ a. and_then a (λ t. store_all t events now))
                    (store_event_full s event now free at_batch),
                lock_held-Hangs last refl,
              ))
        | inr p ↦
            (let more : length s.events + 1 < s.config.batch_size = ground arith in
              let one = length-append s.events (new_data api event now ∷ []) in
              let (s', q, hangs) =
                store_all-Hangs (append (new_data api event now) s) events now free (omega arith)
                  (omega (arith, one)) in
              (
                s',
                ap (λ a. and_then a (λ t. store_all t events now))
                      (store_event_below s event now free more)
                    ∙ q,
                hangs,
              ))
      ]
