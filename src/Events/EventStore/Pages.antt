-- ===== src/Events/EventStore/Pages.antt =====
-- Reading the events page by page.
use multi_ai_agent.Prelude.{
  ℕ, zero, suc, ◌+◌, ◌≤◌, ◌≡◌, refl, ap, ◌∙◌, false, List, [], ◌∷◌, ◌++◌, take, drop, length,
  length-append, arith, ok,
}
use multi_ai_agent.Events.Lock.{done}
use multi_ai_agent.Events.EventStore.{
  EventStore, EventApi, Query, collect, selects, get_events, retrieved,
}

module _ {ℓ} {A : Type ℓ} where
  take-append_pages : (a b : ℕ) (xs : List A) → take (a + b) xs ≡ take a xs ++ take b (drop a xs)
  take-append_pages zero b xs = let here : 0 + b ≡ b = omega arith in rw (here) refl
  take-append_pages (suc a) zero [] = let here : suc a + 0 ≡ suc a = omega arith in rw (here) refl
  take-append_pages (suc a) (suc b) [] =
      let here : suc a + suc b ≡ suc (a + suc b) = omega arith in rw (here) refl
  take-append_pages (suc a) b (x ∷ xs) =
      let here : suc a + b ≡ suc (a + b) = omega arith in
      rw (here) (ap (λ l. x ∷ l) (take-append_pages a b xs))

  drop-drop : (a b : ℕ) (xs : List A) → drop b (drop a xs) ≡ drop (a + b) xs
  drop-drop zero b xs = let here : 0 + b ≡ b = omega arith in rw (here) refl
  drop-drop (suc a) zero [] = let here : suc a + 0 ≡ suc a = omega arith in rw (here) refl
  drop-drop (suc a) (suc b) [] =
      let here : suc a + suc b ≡ suc (a + suc b) = omega arith in rw (here) refl
  drop-drop (suc a) b (x ∷ xs) =
      let here : suc a + b ≡ suc (a + b) = omega arith in rw (here) (drop-drop a b xs)

  length-take : (n : ℕ) (xs : List A) → length (take n xs) ≤ n
  length-take zero xs = omega arith
  length-take (suc n) [] = omega arith
  length-take (suc n) (x ∷ xs) = omega (arith, length-take n xs)

module _ {Ev D : Type 0} (api : EventApi Ev D) where
  retrieved-append :
      (s : EventStore D) (xs ys : List Ev)
      → retrieved (length (xs ++ ys)) s ≡ retrieved (length ys) (retrieved (length xs) s)
  retrieved-append s xs ys =
      let both : s.stats.events_retrieved + length (xs ++ ys)
          ≡ s.stats.events_retrieved + length xs + length ys =
        omega (arith, length-append xs ys) in
      rw (both) refl

  get_events_page :
      (s : EventStore D) (q : Query) (limit offset : ℕ) (all : List Ev)
      → s.lock_held ≡ false
      → collect api (selects api q) s.events ≡ ok all
      → get_events api s q limit offset
        ≡ done (retrieved (length (take limit (drop offset all))) s) (take limit (drop offset all))
  unfolding get_events
  get_events_page s q limit offset all free c = simp (free, c) refl

  -- When the lock is free and every event can be read, two pages that follow one another are together the page of both
  -- lengths, each page has its limit of events at most, and the events are counted as retrieved the
  -- same.
  pub get_events_pages :
      (s : EventStore D) (q : Query) (a b offset : ℕ) (all : List Ev)
      → s.lock_held ≡ false
      → collect api (selects api q) s.events ≡ ok all
      → (page_a page_b : List Ev) × (s1 s2 : EventStore D) × (get_events api s q a offset
          ≡ done s1 page_a)
        × (get_events api s1 q b (offset + a) ≡ done s2 page_b)
        × (get_events api s q (a + b) offset ≡ done s2 (page_a ++ page_b))
        × (length page_a ≤ a)
        × (length page_b ≤ b)
  get_events_pages s q a b offset all free c =
      let page_a = take a (drop offset all) in
      let page_b = take b (drop (offset + a) all) in
      let s1 = retrieved (length page_a) s in
      let joined : take (a + b) (drop offset all) ≡ page_a ++ page_b =
        take-append_pages a b (drop offset all)
        ∙ ap (λ l. page_a ++ take b l) (drop-drop offset a all) in
      (
        page_a,
        page_b,
        s1,
        retrieved (length page_b) s1,
        get_events_page s q a offset all free c,
        get_events_page s1 q b (offset + a) all free c,
        get_events_page s q (a + b) offset all free c
            ∙ ap (λ l. done (retrieved (length l) s) l) joined
            ∙ ap (λ t. done t (page_a ++ page_b)) (retrieved-append s page_a page_b),
        length-take a (drop offset all),
        length-take b (drop (offset + a) all),
      )
