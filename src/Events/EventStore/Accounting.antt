-- ===== src/Events/EventStore/Accounting.antt =====
-- The counters of the event store against the events that it holds.
use multi_ai_agent.Prelude.{
  ℕ, zero, suc, ◌+◌, ◌<◌, ◌≡◌, refl, ap, ◌∙◌, Bool, false, not, List, [], ◌∷◌, ◌++◌, String, Option,
  none, some, str_eq, length, length-append, length-filter-le, filter, take, drop, arith, Result,
  ok, err, Bool-cases, Result-cases, inl, inr,
}
use multi_ai_agent.Prelude.Int.{pos, ◌+ℤ◌, sub_ℕ}
use multi_ai_agent.Events.Lock.{Awaited, done, stuck}
use multi_ai_agent.Events.EventStore.{
  EventStore, EventData, EventApi, append, new_data, find_event, split_event, take_out, keep_item,
  removed_from, give_event, store_event, delete_event, get_event, get_events,
  get_events_by_correlation_id, give_events, collect, selects, Query, is_recent, drop_old,
  cleanup_old_events,
}
use multi_ai_agent.Events.EventStore.Hang.{store_event_below}

pos-+ℤ-pos : (a b : ℕ) → pos a +ℤ pos b ≡ pos (a + b)
unfolding ◌+ℤ◌
pos-+ℤ-pos a b = ground arith

pos-+ℤ-sub_ℕ : (a b : ℕ) → pos (a + b) +ℤ sub_ℕ 0 b ≡ pos a
unfolding ◌+ℤ◌
pos-+ℤ-sub_ℕ a zero = ground arith
pos-+ℤ-sub_ℕ a (suc b) = ground arith

module _ {D : Type 0} where
  abbrev pub total_size : List (EventData D) → ℕ
  total_size [] = 0
  total_size (item ∷ items) = item.size_bytes + total_size items

  -- every event stored is in the store or counted as deleted, and the size is that of the events
  pub record Accounts (s : EventStore D) : Type 0 where
    pub unlocked : s.lock_held ≡ false
    pub counted : s.stats.events_stored ≡ length s.events + s.stats.events_deleted
    pub size : s.stats.storage_size_bytes ≡ pos (total_size s.events)

  total_size-append :
      (xs ys : List (EventData D)) → total_size (xs ++ ys) ≡ total_size xs + total_size ys
  total_size-append [] ys = omega arith
  total_size-append (x ∷ xs) ys = omega (arith, total_size-append xs ys)

  append-Accounts : (item : EventData D) (s : EventStore D) → Accounts s → Accounts (append item s)
  append-Accounts item s a = record {
    unlocked = a.unlocked;
    counted = omega (arith, a.counted, length-append s.events (item ∷ []));
    size =
        rw (a.size, pos-+ℤ-pos (total_size s.events) item.size_bytes)
          (ap pos (omega (arith, total_size-append s.events (item ∷ []))));
  }

  -- a list without one of its items
  pub record Without (item : EventData D) (items rest : List (EventData D)) : Type 0 where
    pub count : length items ≡ length rest + 1
    pub bytes : total_size items ≡ total_size rest + item.size_bytes

  removed_from-Accounts :
      (s : EventStore D) (item : EventData D) (rest : List (EventData D))
      → Without item s.events rest
      → Accounts s
      → Accounts (removed_from s item rest)
  removed_from-Accounts s item rest w a = record {
    unlocked = a.unlocked;
    counted = omega (arith, a.counted, w.count);
    size = rw (a.size, w.bytes) (pos-+ℤ-sub_ℕ (total_size rest) item.size_bytes);
  }

  -- what a deletion has found is one of the items
  abbrev pub Split :
      List (EventData D) → Result String (Option (EventData D × List (EventData D))) → Type 0
  Split items (ok (some (item, rest))) = Without item items rest
  Split items (ok none) = Unit
  Split items (err e) = Unit

  keep_item-Split :
      (x : EventData D) (items : List (EventData D))
      (r : Result String (Option (EventData D × List (EventData D))))
      → Split items r
      → Split (x ∷ items) (keep_item x r)
  keep_item-Split x items (ok (some (item, rest))) w = record {
    count = omega (arith, w.count);
    bytes = omega (arith, w.bytes);
  }
  keep_item-Split x items (ok none) w = tt
  keep_item-Split x items (err e) w = tt

  -- an operation ends, and the account is right afterwards
  abbrev pub EndsWell : {A : Type 0} → Awaited (EventStore D) A → Type 0
  EndsWell (done s a) = Accounts s
  EndsWell (stuck s) = ⊥

  take_out-EndsWell :
      (r : Result String (Option (EventData D × List (EventData D)))) (s : EventStore D)
      → Split s.events r
      → Accounts s
      → EndsWell (take_out r s)
  take_out-EndsWell (ok (some (item, rest))) s w a = removed_from-Accounts s item rest w a
  take_out-EndsWell (ok none) s w a = a
  take_out-EndsWell (err e) s w a = a

  module _ {Ev : Type 0} (api : EventApi Ev D) where
    split_event-Split :
        (id : String) (items : List (EventData D)) → Split items (split_event api id items)
    unfolding split_event
    split_event-Split id [] = tt
    split_event-Split id (x ∷ items) = elim (Result-cases (api.from_dict x.event)) [
      | inl (e, p) ↦ elim (Bool-cases (str_eq (api.event_id e) id)) [
        | inl m ↦ rw (split_event, p, m) (record { count = omega arith; bytes = omega arith })
        | inr m ↦
            rw (split_event, p, m)
              (keep_item-Split x items (split_event api id items) (split_event-Split id items))
      ]
      | inr (m, p) ↦ rw (split_event, p) tt
    ]

    give_events-EndsWell :
        (page : List Ev → List Ev) (r : Result String (List Ev)) (s : EventStore D)
        → Accounts s
        → EndsWell (give_events api page r s)
    give_events-EndsWell page (ok events) s a = record {
      unlocked = a.unlocked;
      counted = a.counted;
      size = a.size;
    }
    give_events-EndsWell page (err e) s a = a

    give_event-EndsWell :
        (r : Result String (Option Ev)) (s : EventStore D)
        → Accounts s
        → EndsWell (give_event api r s)
    give_event-EndsWell (ok (some event)) s a = record {
      unlocked = a.unlocked;
      counted = a.counted;
      size = a.size;
    }
    give_event-EndsWell (ok none) s a = a
    give_event-EndsWell (err e) s a = a

    -- In a store whose account is right, and that stays below the batch size, storing, finding,
    -- querying and deleting events end, and the account is right afterwards: every event stored is
    -- held or counted as deleted, and the size is the sum of the sizes of the events held.
    pub operations-Accounts :
        (s : EventStore D) (event : Ev) (id : String) (q : Query) (limit offset now : ℕ)
        → length s.events + 1 < s.config.batch_size
        → Accounts s
        → EndsWell (store_event api s event now)
          × EndsWell (get_event api s id)
          × EndsWell (get_events api s q limit offset)
          × EndsWell (get_events_by_correlation_id api s id)
          × EndsWell (delete_event api s id)
    unfolding get_event get_events get_events_by_correlation_id delete_event
    operations-Accounts s event id q limit offset now room a = (
      rw (store_event_below api s event now a.unlocked room)
          (append-Accounts (new_data api event now) s a),
      simp (a.unlocked) (give_event-EndsWell (find_event api id s.events) s a),
      simp (a.unlocked) (
          give_events-EndsWell (λ events. take limit (drop offset events))
            (collect api (selects api q) s.events) s a),
      simp (a.unlocked) (
          give_events-EndsWell (λ events. events)
            (collect api (λ event. str_eq (api.correlation_id event) id) s.events) s a),
      simp (a.unlocked)
          (take_out-EndsWell (split_event api id s.events) s (split_event-Split id s.events) a),
    )

  total_size-filter :
      (p : EventData D → Bool) (items : List (EventData D))
      → total_size items
        ≡ total_size (filter p items) + total_size (filter (λ item. not (p item)) items)
  total_size-filter p [] = omega arith
  total_size-filter p (x ∷ items) = elim (Bool-cases (p x)) [
    | inl h ↦ rw (h) (omega (arith, total_size-filter p items))
    | inr h ↦ rw (h) (omega (arith, total_size-filter p items))
  ]

  -- A clean-up of a store whose account is right counts the events that it removes, and leaves their
  -- bytes in the size: it is then that of the events held and of those removed together.
  pub cleanup_old_events_size :
      (s : EventStore D) (now : ℕ)
      → Accounts s
      → (s' : EventStore D) × (cleanup_old_events s now ≡ done s' tt)
        × (s'.stats.events_stored ≡ length s'.events + s'.stats.events_deleted)
        × (s'.stats.storage_size_bytes
            ≡ pos (
                total_size s'.events
                + total_size (filter (λ item. not (is_recent s.config now item)) s.events)))
  unfolding cleanup_old_events
  cleanup_old_events_size s now a = (
    drop_old s now,
    simp (a.unlocked) refl,
    omega (arith, a.counted, length-filter-le (is_recent s.config now) s.events),
    a.size ∙ ap pos (total_size-filter (is_recent s.config now) s.events),
  )
