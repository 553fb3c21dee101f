-- ===== src/Prelude/Latest.antt =====
-- The last items of a list, `xs[-n:]`.
use Prim.Native.Nat.{ℕ, zero, suc, ◌+◌, ◌-◌, ◌≤◌, ◌<◌, min}
use mathlib.Core.Path.{◌≡◌, refl, sym, ap, ◌∙◌}
use mathlib.Core.Logic.{inl, inr}
use mathlib.Core.List.{List, [], ◌∷◌, ◌++◌}
use native.Mathlib.Omega.{arith}
use multi_ai_agent.Prelude.Tests.{leb, if◌then◌else◌, Bool-cases, leb→le}
use multi_ai_agent.Prelude.Lists.{length, drop, length-append}

module _ {ℓ} {A : Type ℓ} where
  -- the last `n` items
  abbrev pub last_n : ℕ → List A → List A
  last_n n xs = drop (length xs - n) xs

  pub drop-append : (k : ℕ) (xs ys : List A) → k ≤ length xs → drop k (xs ++ ys) ≡ drop k xs ++ ys
  drop-append zero xs ys h = refl
  drop-append (suc k) [] ys h = absurd (omega arith)
  drop-append (suc k) (x ∷ xs) ys h = drop-append k xs ys (omega arith)

  pub length-drop : (k : ℕ) (xs : List A) → length (drop k xs) ≡ length xs - k
  length-drop zero xs = omega arith
  length-drop (suc k) [] = omega arith
  length-drop (suc k) (x ∷ xs) = omega (arith, length-drop k xs)

  -- one more item: the oldest of a full window leaves
  pub last_n-append_one :
      (n : ℕ) (xs : List A) (y : A)
      → 0 < n
      → last_n n (xs ++ y ∷ [])
        ≡ (if leb n (length xs) then drop (suc (length xs - n)) xs else xs) ++ y ∷ []
  last_n-append_one n xs y h = elim (Bool-cases (leb n (length xs))) [
    | inl p ↦
        (let k : length (xs ++ y ∷ []) - n ≡ suc (length xs - n) =
            omega (arith, length-append xs (y ∷ []), leb→le n (length xs) p) in
          rw (k, p)
            (drop-append (suc (length xs - n)) xs (y ∷ []) (omega (arith, leb→le n (length xs) p))))
    | inr p ↦
        (let k : length (xs ++ y ∷ []) - n ≡ 0 = ground (arith, length-append xs (y ∷ [])) in
          rw (k, p))
  ]

  drop-nil : (k : ℕ) → drop {A = A} k [] ≡ []
  drop-nil zero = refl
  drop-nil (suc k) = refl

  drop-drop : (m k j : ℕ) (xs : List A) → j ≡ m + k → drop k (drop m xs) ≡ drop j xs
  drop-drop zero k j xs e = ap (λ n. drop n xs) (omega (arith, e))
  drop-drop (suc m) k j [] e = drop-nil k ∙ sym (drop-nil j)
  drop-drop (suc m) k zero (x ∷ xs) e = absurd (omega (arith, e))
  drop-drop (suc m) k (suc j) (x ∷ xs) e = drop-drop m k j xs (omega (arith, e))

  -- a window that is cut to its size holds the last items of all that were appended
  pub last_n-last_n :
      (n : ℕ) (xs : List A) (y : A)
      → 0 < n
      → last_n n (last_n n xs ++ y ∷ []) ≡ last_n n (xs ++ y ∷ [])
  last_n-last_n n xs y h =
      let kept = length xs - n in
      let window : last_n n xs ++ y ∷ [] ≡ drop kept (xs ++ y ∷ []) =
        sym (drop-append kept xs (y ∷ []) (omega arith)) in
      ap (last_n n) window
      ∙ drop-drop kept (length (drop kept (xs ++ y ∷ [])) - n) (length (xs ++ y ∷ []) - n)
          (xs ++ y ∷ []) (omega (arith, length-drop kept (xs ++ y ∷ []), length-append xs (y ∷ [])))

  -- a list within the size stays
  pub last_n-short : (n : ℕ) (xs : List A) → length xs ≤ n → last_n n xs ≡ xs
  last_n-short n xs h = let all : length xs - n ≡ 0 = omega arith in ap (λ k. drop k xs) all

  pub length-last_n : (n : ℕ) (xs : List A) → length (last_n n xs) ≡ min n (length xs)
  length-last_n n xs = omega (arith, length-drop (length xs - n) xs)
