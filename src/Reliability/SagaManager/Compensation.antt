-- ===== src/Reliability/SagaManager/Compensation.antt =====
-- The compensation loop goes down from an index; it treats the steps up to there, the last first.
use mathlib.Core.List.{reverse-append, map-append}
use native.Mathlib.Nat.{add-zero}
use multi_ai_agent.Prelude.{
  ℕ, suc, ◌+◌, ◌≡◌, refl, ap, ◌∙◌, some, List, [], ◌∷◌, ◌++◌, String, arith, inl, inr, length, map,
  reverse, get_elem?, set, if◌then◌else◌, Bool-cases, length-append,
}
use multi_ai_agent.Reliability.SagaManager.{
  SagaStep, compensate_step, compensate_below, needs_compensation,
}

module _ {ℓ} {A : Type ℓ} where
  -- the list `xs` from its end on, in front of `ys`
  unfoldable pub rev_onto : List A → List A → List A
  rev_onto [] ys = ys
  rev_onto (x ∷ xs) ys = rev_onto xs (x ∷ ys)

  get_elem?-rev_onto :
      (xs ys : List A) (k : ℕ) → get_elem? (rev_onto xs ys) (length xs + k) ≡ get_elem? ys k
  unfolding rev_onto
  get_elem?-rev_onto [] ys k = let e : 0 + k ≡ k = omega arith in rw e
  get_elem?-rev_onto (x ∷ xs) ys k =
      let e : suc (length xs) + k ≡ length xs + suc k = omega arith in
      rw e (get_elem?-rev_onto xs (x ∷ ys) (suc k))

  set-rev_onto :
      (xs ys : List A) (k : ℕ) (v : A)
      → set (rev_onto xs ys) (length xs + k) v ≡ rev_onto xs (set ys k v)
  unfolding rev_onto
  set-rev_onto [] ys k v = let e : 0 + k ≡ k = omega arith in rw e
  set-rev_onto (x ∷ xs) ys k v =
      let e : suc (length xs) + k ≡ length xs + suc k = omega arith in
      rw e (set-rev_onto xs (x ∷ ys) (suc k) v)

  rev_onto-append : (xs ys zs : List A) → rev_onto (xs ++ ys) zs ≡ rev_onto ys (rev_onto xs zs)
  unfolding rev_onto
  rev_onto-append [] ys zs = refl
  rev_onto-append (x ∷ xs) ys zs = rev_onto-append xs ys (x ∷ zs)

  pub rev_onto-reverse : (xs ys : List A) → rev_onto (reverse xs) ys ≡ xs ++ ys
  unfolding rev_onto
  rev_onto-reverse [] ys = refl
  rev_onto-reverse (x ∷ xs) ys =
      ap (λ l. rev_onto l ys) (reverse-append (x ∷ []) xs)
      ∙ rev_onto-append (reverse xs) (x ∷ []) ys
      ∙ ap (λ l. x ∷ l) (rev_onto-reverse xs ys)

  pub length-reverse : (xs : List A) → length (reverse xs) ≡ length xs
  length-reverse [] = refl
  length-reverse (x ∷ xs) =
      rw (reverse-append (x ∷ []) xs)
        (omega (arith, length-append (reverse xs) (x ∷ []), length-reverse xs))

module _ {ℓ κ} {A : Type ℓ} {B : Type κ} where
  pub map-reverse : (f : A → B) (xs : List A) → map f (reverse xs) ≡ reverse (map f xs)
  map-reverse f [] = refl
  map-reverse f (x ∷ xs) = rw (
    reverse-append (x ∷ []) xs,
    map-append,
    map-reverse f xs,
    reverse-append (f x ∷ []) (map f xs),
  )

module _ {R : Type 0} where
  -- what the loop makes of a step, and the ids of the steps that it compensates, in order
  abbrev pub compensate_if : SagaStep R → SagaStep R
  compensate_if s = if needs_compensation s then compensate_step s else s

  abbrev pub undo_ids : List (SagaStep R) → List String
  undo_ids [] = []
  undo_ids (s ∷ steps) =
      let rest = undo_ids steps in if needs_compensation s then s.step_id ∷ rest else rest

  pub compensate_below-rev_onto :
      (rs ys : List (SagaStep R))
      → compensate_below (length rs) (rev_onto rs ys)
        ≡ some (rev_onto (map compensate_if rs) ys, undo_ids rs)
  unfolding compensate_below rev_onto
  compensate_below-rev_onto [] ys = refl
  compensate_below-rev_onto (s ∷ rs) ys =
      let e : get_elem? (rev_onto rs (s ∷ ys)) (length rs) ≡ some s =
        rw add-zero at (get_elem?-rev_onto rs (s ∷ ys) 0) in
      let u : set (rev_onto rs (s ∷ ys)) (length rs) (compensate_step s)
          ≡ rev_onto rs (compensate_step s ∷ ys) =
        rw add-zero at (set-rev_onto rs (s ∷ ys) 0 (compensate_step s)) in
      elim (Bool-cases (needs_compensation s)) [
        | inl p ↦
            rw (compensate_below, e, p, u, compensate_below-rev_onto rs (compensate_step s ∷ ys))
        | inr p ↦ rw (compensate_below, e, p, compensate_below-rev_onto rs (s ∷ ys))
      ]
