-- ===== src/Events/DlqHandler/ManualRetry.antt =====
-- The retry by hand, which takes the lock of the handler twice.
use multi_ai_agent.Prelude.{
  ℕ, suc, ◌≡◌, refl, Bool, true, false, List, [], ◌∷◌, ◌++◌, String, Option, some, str_eq, All,
  Result, ok,
}
use multi_ai_agent.Events.Lock.{stuck}
use multi_ai_agent.Events.DlqHandler.{
  DlqHandler, DlqEntry, find_event, manual_retry, retry_event, send_to_dlq, cleanup_expired_events,
  clear_dlq, get_dlq_events,
}

module _ {Ev : Type 0} where
  -- these operations, which take the lock, never end
  pub record Hangs (h : DlqHandler Ev) : Type 0 where
    pub send : (event : Ev) (reason : String) (now : ℕ) → send_to_dlq h event reason now ≡ stuck h
    pub cleanup : (now : ℕ) → cleanup_expired_events h now ≡ stuck h
    pub clear : clear_dlq h ≡ stuck h
    pub events :
        (event_type : Ev → String) (limit offset : ℕ) (t : Option String)
        → get_dlq_events event_type h limit offset t ≡ stuck h

  lock_held-Hangs : (h : DlqHandler Ev) → h.lock_held ≡ true → Hangs h
  unfolding send_to_dlq cleanup_expired_events clear_dlq get_dlq_events
  lock_held-Hangs h l = record {
    send = λ event reason now. simp (l) refl;
    cleanup = λ now. simp (l) refl;
    clear = simp (l) refl;
    events = λ event_type limit offset t. simp (l) refl;
  }

  module _ (publish : Ev → Result String Bool) (event_id : Ev → String) where
    find_event-append :
        (id : String) (i : ℕ) (xs : List (DlqEntry Ev)) (e : DlqEntry Ev) (ys : List (DlqEntry Ev))
        → All (λ x. str_eq (event_id x.event) id ≡ false) xs
        → str_eq (event_id e.event) id ≡ true
        → (k : ℕ) × (find_event event_id id i (xs ++ e ∷ ys) ≡ some (k, e))
    find_event-append id i [] e ys hx he = (i, rw (he) refl)
    find_event-append id i (x ∷ xs) e ys (h, hx) he =
        let (k, p) = find_event-append id (suc i) xs e ys hx he in (k, rw (h) p)

    -- With a bus and a free lock, a retry by hand of the first event with an id, whose publication
    -- answers at all, never ends: the lock stays held, and then sending, cleaning up, clearing and
    -- listing never end either.
    pub manual_retry-Hangs :
        (h : DlqHandler Ev) (id : String) (b : Bool) (xs : List (DlqEntry Ev)) (e : DlqEntry Ev)
        (ys : List (DlqEntry Ev)) (now : ℕ)
        → h.has_event_bus ≡ true
        → h.lock_held ≡ false
        → h.dlq_events ≡ xs ++ e ∷ ys
        → All (λ x. str_eq (event_id x.event) id ≡ false) xs
        → str_eq (event_id e.event) id ≡ true
        → publish e.event ≡ ok b
        → (manual_retry publish event_id h id now ≡ stuck (record h { lock_held = true }))
          × Hangs (record h { lock_held = true })
    unfolding manual_retry retry_event
    manual_retry-Hangs h id b xs e ys now bus free q hx he p =
        let (k, f) = find_event-append id 0 xs e ys hx he in
        (simp (bus, free, q, f, p) refl, lock_held-Hangs (record h { lock_held = true }) refl)
