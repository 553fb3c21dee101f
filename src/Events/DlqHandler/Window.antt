-- ===== src/Events/DlqHandler/Window.antt =====
-- The bounded queue as a client sees it: it holds the latest events.
use multi_ai_agent.Prelude.{
  ℕ, zero, suc, ◌+◌, ◌-◌, ◌≤◌, ◌<◌, ◌≡◌, refl, ap, true, false, List, [], ◌∷◌, ◌++◌, String, length,
  drop, arith, leb, inl, inr, Bool-cases, le→leb, leb→le,
}
use multi_ai_agent.Prelude.Latest.{last_n, last_n-append_one, length-drop}
use multi_ai_agent.Events.Lock.{done}
use multi_ai_agent.Events.DlqHandler.{
  DlqHandler, DlqEntry, send_to_dlq, pop, make_room, new_entry, receive,
}

module _ {Ev : Type 0} where
  -- the queue is the latest part of the history `past` of the events sent
  pub record Holds (h : DlqHandler Ev) (past : List (DlqEntry Ev)) : Type 0 where
    pub latest : h.dlq_events ≡ last_n h.config.max_dlq_size past
    pub unlocked : h.lock_held ≡ false

  pop-drop : (k : ℕ) (xs : List (DlqEntry Ev)) → k < length xs → pop (drop k xs) 0 ≡ drop (suc k) xs
  pop-drop zero [] h = absurd (omega arith)
  pop-drop zero (x ∷ xs) h = refl
  pop-drop (suc k) [] h = absurd (omega arith)
  pop-drop (suc k) (x ∷ xs) h = pop-drop k xs (omega arith)

  make_room-Holds :
      (h : DlqHandler Ev) (past : List (DlqEntry Ev)) (e : DlqEntry Ev)
      → 0 < h.config.max_dlq_size
      → h.dlq_events ≡ last_n h.config.max_dlq_size past
      → make_room h ++ e ∷ [] ≡ last_n h.config.max_dlq_size (past ++ e ∷ [])
  make_room-Holds h past e pos l =
      let n = h.config.max_dlq_size in
      rw (last_n-append_one n past e pos) (
        ap (λ xs. xs ++ e ∷ [])
          (elim (Bool-cases (leb n (length past))) [
            | inl p ↦
                (let full : leb n (length (drop (length past - n) past)) ≡ true =
                    le→leb n (length (drop (length past - n) past)) (
                      omega
                        (arith, length-drop (length past - n) past, leb→le n (length past) p)) in
                  rw (p, l, full)
                    (pop-drop (length past - n) past (omega (arith, leb→le n (length past) p))))
            | inr p ↦ (let short : length past - n ≡ 0 = ground arith in rw (p, l, short, p) refl)
          ]))

  -- Sending an event to a handler that nobody has locked for ever, with a positive maximal size,
  -- ends, and the queue then holds the latest events of the history with this one, the maximal
  -- number at most; the event is the last of the queue and counted as received.
  pub send_to_dlq-Holds :
      (h : DlqHandler Ev) (past : List (DlqEntry Ev)) (event : Ev) (reason : String) (now : ℕ)
      → 0 < h.config.max_dlq_size
      → Holds h past
      → (h' : DlqHandler Ev) × (send_to_dlq h event reason now ≡ done h' tt)
        × Holds h' (past ++ new_entry h event reason now ∷ [])
        × (length h'.dlq_events ≤ h.config.max_dlq_size)
        × (h'.stats.events_received ≡ h.stats.events_received + 1)
  unfolding send_to_dlq
  send_to_dlq-Holds h past event reason now pos inv =
      let e = new_entry h event reason now in
      let held = make_room-Holds h past e pos inv.latest in
      (
        receive h event reason now,
        rw (inv.unlocked) refl,
        record { latest = held; unlocked = inv.unlocked },
        rw (held) (
            omega (
              arith,
              length-drop (length (past ++ e ∷ []) - h.config.max_dlq_size) (past ++ e ∷ []),
            )),
        refl,
      )
