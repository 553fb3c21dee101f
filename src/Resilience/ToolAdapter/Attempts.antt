-- ===== src/Resilience/ToolAdapter/Attempts.antt =====
-- The attempts of one request end.
use multi_ai_agent.Prelude.{
  ℕ, zero, suc, ◌+◌, ◌≤◌, ◌<◌, ◌≡◌, refl, ap, Bool, true, false, arith, Result, ok, err,
  Result-cases, Bool-cases, inl, inr, ◌⊎◌,
}
use multi_ai_agent.Resilience.ToolAdapter.{attempts_from}

module _ {E V : Type 0} (again : ℕ → E → Bool) (raised : ℕ → E → E) (attempt : ℕ → Result E V) where
  abbrev pub FailedAgain : ℕ → Type 0
  FailedAgain i = (e : E) × (attempt i ≡ err e) × (again i e ≡ true)

  -- the attempt `i` is the last one, and `r` is what comes of it
  abbrev pub Final : ℕ → Result E V → Type 0
  Final i r =
      ((v : V) × (attempt i ≡ ok v) × (r ≡ ok v))
      ⊎ ((e : E) × (attempt i ≡ err e) × (again i e ≡ false) × (r ≡ err (raised i e)))

  -- from the attempt `k` on there are `n` attempts, all but the last one to be tried again
  pub record Ends (k n : ℕ) (r : Result E V) : Type 0 where
    pub more : ℕ
    pub number : n ≡ suc more
    pub before : (i : ℕ) → i < more → FailedAgain (k + i)
    pub last : Final (k + more) r

  now-Ends : (k : ℕ) (r : Result E V) → Final k r → Ends k 1 r
  now-Ends k r f =
      let here : k + 0 ≡ k = omega arith in
      record { more = 0; number = refl; before = λ i h. absurd (omega arith); last = rw (here) f }

  later-Ends : (k n : ℕ) (r : Result E V) → FailedAgain k → Ends (suc k) n r → Ends k (suc n) r
  later-Ends k n r f d = record {
    more = suc d.more;
    number = ap suc d.number;
    before = before;
    last = (let here : k + suc d.more ≡ suc k + d.more = omega arith in rw (here) d.last);
  }
    where
      before : (i : ℕ) → i < suc d.more → FailedAgain (k + i)
      before zero h = let here : k + 0 ≡ k = omega arith in rw (here) f
      before (suc i) h =
          let here : k + suc i ≡ suc k + i = omega arith in rw (here) (d.before i (omega arith))

  -- When tenacity never goes on from the attempt of the number `max` or a later one, as
  -- `stop_after_attempt` says, and the fuel reaches to `max`, the attempts end: all but the last one failed and were to be tried again, and the last one's value is
  -- the result, or it failed, was not to be tried again, and what tenacity then raises is raised.
  pub attempts_from-Ends :
      (max fuel k : ℕ)
      → ((i : ℕ) (e : E) → max ≤ i → again i e ≡ false)
      → max ≤ k + fuel
      → Ends k
          (attempts_from again raised attempt fuel k).0
          (attempts_from again raised attempt fuel k).1
  unfolding attempts_from
  attempts_from-Ends max zero k stop enough = elim (Result-cases (attempt k)) [
    | inl (v, p) ↦ rw (attempts_from, p) (now-Ends k (ok v) (inl (v, p, refl)))
    | inr (e, p) ↦
        rw (attempts_from, p)
          (now-Ends k (err (raised k e)) (inr (e, p, stop k e (omega arith), refl)))
  ]
  attempts_from-Ends max (suc fuel) k stop enough =
      let later = attempts_from-Ends max fuel (suc k) stop (omega arith) in
      elim (Result-cases (attempt k)) [
        | inl (v, p) ↦ rw (attempts_from, p) (now-Ends k (ok v) (inl (v, p, refl)))
        | inr (e, p) ↦ elim (Bool-cases (again k e)) [
          | inl a ↦
              rw (attempts_from, p, a)
                (later-Ends k (attempts_from again raised attempt fuel (suc k)).0
                  (attempts_from again raised attempt fuel (suc k)).1 (e, p, a) later)
          | inr a ↦ rw (attempts_from, p, a) (now-Ends k (err (raised k e)) (inr (e, p, a, refl)))
        ]
      ]
