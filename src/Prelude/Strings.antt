-- ===== src/Prelude/Strings.antt =====
-- Python's sets of strings as lists, and the tests on whole strings.
use Prim.Native.Nat.{ℕ, suc, ◌≤◌, ◌<◌}
use Prim.Native.String.{String}
use mathlib.Core.Path.{◌≡◌, refl}
use mathlib.Core.Logic.{◌↔◌}
use mathlib.Core.Bool.{Bool, true, false, ◌||◌}
use mathlib.Core.List.{List, [], ◌∷◌, ◌++◌}
use native.Mathlib.Omega.{arith}
use text.Mathlib.Text.{◌==◌}
use text.Mathlib.TextEquality.{eq_iff}
use text.Mathlib.TextPositions.{eq_refl}
use multi_ai_agent.Prelude.Tests.{if◌then◌else◌}
use multi_ai_agent.Prelude.Lists.{length}

-- `x in xs`
unfoldable pub contains : String → List String → Bool
contains x [] = false
contains x (y ∷ ys) = y == x || contains x ys

-- `set(xs)`, each string once
unfoldable pub distinct : List String → List String
distinct [] = []
distinct (x ∷ xs) = let rest = distinct xs in if contains x rest then rest else x ∷ rest

-- Every string occurs once.
abbrev pub IsUnique : List String → Type 0
IsUnique [] = Unit
IsUnique (x ∷ xs) = (contains x xs ≡ false) × IsUnique xs

pub contains-append :
    (x : String) (xs ys : List String) → contains x (xs ++ ys) ≡ (contains x xs || contains x ys)
unfolding contains
contains-append x [] ys = refl
contains-append x (y ∷ xs) ys = ground (arith, contains-append x xs ys)

pub contains-distinct : (x : String) (xs : List String) → contains x (distinct xs) ≡ contains x xs
unfolding contains distinct
contains-distinct x [] = refl
contains-distinct x (y ∷ xs) =
    ground (arith, contains-distinct x xs, contains-distinct y xs, eq_iff y x)

length-distinct-le : (xs : List String) → length (distinct xs) ≤ length xs
unfolding distinct
length-distinct-le [] = omega arith
length-distinct-le (x ∷ xs) = ground (arith, length-distinct-le xs)

-- The set is as long as the list exactly when no string occurs twice.
pub length-distinct : (xs : List String) → (length (distinct xs) ≡ length xs) ↔ IsUnique xs
unfolding distinct
length-distinct [] = ground arith
length-distinct (x ∷ xs) =
    ground (arith, length-distinct xs, length-distinct-le xs, contains-distinct x xs)

-- how many of the strings are not in the set
unfoldable pub missing : List String → List String → ℕ
missing seen [] = 0
missing seen (x ∷ xs) = if contains x seen then missing seen xs else suc (missing seen xs)

pub missing-le : (seen xs : List String) → missing seen xs ≤ length xs
unfolding missing
missing-le seen [] = omega arith
missing-le seen (x ∷ xs) = ground (arith, missing-le seen xs)

pub missing-antitone :
    (s t xs : List String)
    → ((x : String) → contains x s ≡ true → contains x t ≡ true)
    → missing t xs ≤ missing s xs
unfolding missing
missing-antitone s t [] h = omega arith
missing-antitone s t (x ∷ xs) h = ground (arith, missing-antitone s t xs h, h x)

pub missing-cons :
    (x : String) (s xs : List String)
    → contains x xs ≡ true
    → contains x s ≡ false
    → missing (x ∷ s) xs < missing s xs
unfolding missing contains
missing-cons x s [] h k = cc
missing-cons x s (y ∷ xs) h k = ground (
  arith,
  missing-antitone s (x ∷ s) xs (λ z m. ground (arith, contains)),
  missing-cons x s xs,
  eq_iff y x,
  eq_iff x y,
)

pub IsUnique-append : (xs ys : List String) → IsUnique (xs ++ ys) → IsUnique ys
IsUnique-append [] ys h = h
IsUnique-append (x ∷ xs) ys h = IsUnique-append xs ys h.1

-- a string that comes again
pub IsUnique-again :
    (xs : List String) (x : String) (ys zs : List String)
    → ¬ IsUnique (xs ++ (x ∷ (ys ++ (x ∷ zs))))
unfolding contains
IsUnique-again xs x ys zs h =
    let last = IsUnique-append xs (x ∷ (ys ++ (x ∷ zs))) h in
    ground (arith, contains-append x ys (x ∷ zs), eq_refl x)
