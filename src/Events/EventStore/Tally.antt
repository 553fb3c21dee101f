-- ===== src/Events/EventStore/Tally.antt =====
-- The statistics of the event store count each event under its type.
use multi_ai_agent.Prelude.{
  ℕ, zero, suc, ◌+◌, ◌≡◌, refl, ap, ◌∙◌, false, List, [], ◌∷◌, String, Option, none, some, str_eq,
  eq_iff, length, filter, arith, ok, Bool-cases, inl, inr,
}
use multi_ai_agent.Prelude.Dict.{Dict, get, get-put}
use multi_ai_agent.Events.Lock.{done}
use multi_ai_agent.Events.EventStore.{EventStore, EventApi, collect}
use multi_ai_agent.Events.EventStore.Statistics.{
  Statistics, in_range, count_one, next_count, tally, statistics_of, get_event_statistics,
}

-- how many more a count is
abbrev pub plus : Option ℕ → ℕ → Option ℕ
plus none zero = none
plus none (suc n) = some (suc n)
plus (some m) n = some (m + n)

plus_one : (c : Option ℕ) (n : ℕ) → plus (some (next_count c)) n ≡ plus c (suc n)
plus_one none n = ground arith
plus_one (some m) n = ground arith

module _ {Ev D : Type 0} (api : EventApi Ev D) where
  -- the events of a type
  abbrev pub with_type : String → List Ev → List Ev
  with_type t events = filter (λ event. str_eq (api.event_type event) t) events

  get-tally :
      (t : String) (events : List Ev) (counts : Dict ℕ)
      → get t (tally (λ event. count_one (api.event_type event)) events counts)
        ≡ plus (get t counts) (length (with_type t events))
  unfolding tally
  get-tally t [] counts = go (get t counts)
    where
      go : (c : Option ℕ) → c ≡ plus c 0
      go none = refl
      go (some m) = ap some (omega arith)
  get-tally t (event ∷ events) counts =
      let k = api.event_type event in
      let step =
        get-tally t events (count_one k counts)
        ∙ ap (λ c. plus c (length (with_type t events)))
            (get-put k t (next_count (get k counts)) counts) in
      elim (Bool-cases (str_eq k t)) [
        | inl p ↦
            (let same : k ≡ t = (eq_iff k t).0 p in
              rw (p) (
                step
                ∙ rw (p) (
                    plus_one (get k counts) (length (with_type t events))
                    ∙ ap (λ c. plus (get c counts) (suc (length (with_type t events)))) same)))
        | inr p ↦ rw (p) (step ∙ rw (p) refl)
      ]

  -- When the lock is free and the events can be read, the statistics give the number of those in the time
  -- range, and under each type the number of those of that type; a type that none of them has is absent. The store stays
  -- as it is.
  pub get_event_statistics_types :
      (s : EventStore D) (start_time end_time : Option ℕ) (events : List Ev) (t : String)
      → s.lock_held ≡ false
      → collect api (in_range api start_time end_time) s.events ≡ ok events
      → (statistics : Statistics) × (get_event_statistics api s start_time end_time
          ≡ done s (some statistics))
        × (statistics.total_events ≡ length events)
        × (get t statistics.event_types ≡ plus none (length (with_type t events)))
  unfolding get_event_statistics get
  get_event_statistics_types s start_time end_time events t free c = (
    statistics_of api start_time end_time events,
    simp (free, c) refl,
    refl,
    get-tally t events [],
  )
