-- ===== src/Events/EventStore/Lookup.antt =====
-- Storing, finding and deleting an event by its id.
use multi_ai_agent.Prelude.{
  ℕ, ◌+◌, ◌<◌, ◌≡◌, refl, ◌∙◌, true, false, List, [], ◌∷◌, ◌++◌, String, none, some, str_eq, length,
  ok, All, All-append, eq_refl,
}
use multi_ai_agent.Events.Lock.{done}
use multi_ai_agent.Events.EventStore.{
  EventStore, EventData, EventApi, append, new_data, retrieved, find_event, split_event,
  removed_from, store_event, get_event, delete_event,
}
use multi_ai_agent.Events.EventStore.Hang.{store_event_below}

module _ {Ev D : Type 0} (api : EventApi Ev D) where
  -- the item can be read, and has another id
  abbrev pub Misses : String → EventData D → Type 0
  Misses id item =
      (event : Ev) × (api.from_dict item.event ≡ ok event)
      × (str_eq (api.event_id event) id ≡ false)

  find_event-append :
      (id : String) (xs ys : List (EventData D))
      → All (Misses id) xs
      → find_event api id (xs ++ ys) ≡ find_event api id ys
  unfolding find_event
  find_event-append id [] ys h = refl
  find_event-append id (x ∷ xs) ys ((event, r, n), h) = rw (r, n) (find_event-append id xs ys h)

  split_event-append :
      (id : String) (xs : List (EventData D)) (item : EventData D) (ys : List (EventData D))
      (event : Ev)
      → All (Misses id) xs
      → api.from_dict item.event ≡ ok event
      → str_eq (api.event_id event) id ≡ true
      → split_event api id (xs ++ item ∷ ys) ≡ ok (some (item, xs ++ ys))
  unfolding split_event
  split_event-append id [] item ys event h r m = rw (r, m) refl
  split_event-append id (x ∷ xs) item ys event ((e, rx, n), h) r m =
      rw (rx, n, split_event-append id xs item ys event h r m) refl

  find_event-none :
      (id : String) (xs : List (EventData D)) → All (Misses id) xs → find_event api id xs ≡ ok none
  unfolding find_event
  find_event-none id [] h = refl
  find_event-none id (x ∷ xs) ((event, r, n), h) = rw (find_event, r, n) (find_event-none id xs h)

  find_event_here :
      (id : String) (item : EventData D) (event : Ev)
      → api.from_dict item.event ≡ ok event
      → str_eq (api.event_id event) id ≡ true
      → find_event api id (item ∷ []) ≡ ok (some event)
  unfolding find_event
  find_event_here id item event r m = rw (find_event, r, m) refl

  -- Below the batch size, an event that reads back as it was written is stored, and is then what its
  -- id finds when no event before it has that id and all of them can be read.
  pub get_event-store_event :
      (s : EventStore D) (event : Ev) (now : ℕ)
      → s.lock_held ≡ false
      → length s.events + 1 < s.config.batch_size
      → api.from_dict (api.to_dict event) ≡ ok event
      → All (Misses (api.event_id event)) s.events
      → (s' : EventStore D) × (store_event api s event now ≡ done s' true)
        × (get_event api s' (api.event_id event) ≡ done (retrieved 1 s') (some event))
  unfolding get_event
  get_event-store_event s event now free room round h =
      let id = api.event_id event in
      let same : str_eq id id ≡ true = eq_refl id in
      let found =
        find_event-append id s.events (new_data api event now ∷ []) h
        ∙ find_event_here id (new_data api event now) event round same in
      (
        append (new_data api event now) s,
        store_event_below api s event now free room,
        simp (free, found) refl,
      )

  split_event-none :
      (id : String) (xs : List (EventData D)) → All (Misses id) xs → split_event api id xs ≡ ok none
  unfolding split_event
  split_event-none id [] h = refl
  split_event-none id (x ∷ xs) ((event, r, n), h) =
      rw (split_event, r, n, split_event-none id xs h) refl

  -- Deleting an event takes out the first one with the id, where the ones before it can be read, and
  -- keeps the rest in order; when no other event has the id, it is not found afterwards and a second
  -- deletion changes nothing.
  pub delete_event_outcome :
      (s : EventStore D) (id : String) (xs : List (EventData D)) (item : EventData D)
      (ys : List (EventData D)) (event : Ev)
      → s.lock_held ≡ false
      → s.events ≡ xs ++ item ∷ ys
      → api.from_dict item.event ≡ ok event
      → str_eq (api.event_id event) id ≡ true
      → All (Misses id) xs
      → All (Misses id) ys
      → (s' : EventStore D) × (delete_event api s id ≡ done s' true)
        × (s'.events ≡ xs ++ ys)
        × (s'.stats.events_deleted ≡ s.stats.events_deleted + 1)
        × (get_event api s' id ≡ done s' none)
        × (delete_event api s' id ≡ done s' false)
  unfolding delete_event get_event
  delete_event_outcome s id xs item ys event free q r m hx hy =
      let split = split_event-append id xs item ys event hx r m in
      let gone = find_event-append id xs ys hx ∙ find_event-none id ys hy in
      (
        removed_from s item (xs ++ ys),
        simp (free, q, split) refl,
        refl,
        refl,
        simp (free, gone) refl,
        simp (free, split_event-none id (xs ++ ys) (All-append (Misses id) xs ys hx hy)) refl,
      )
