-- ===== src/Prelude/Dict.antt =====
-- Python's `dict` with string keys, as an association list in the order of insertion.
use Prim.Native.String.{String}
use Prim.Native.Nat.{◌+◌, ◌≤◌}
use mathlib.Core.Logic.{inl, inr}
use mathlib.Core.Path.{◌≡◌, refl, sym, ap}
use mathlib.Core.Option.{Option, none, some, none-ne-some}
use mathlib.Core.List.{List, [], ◌∷◌}
use native.Mathlib.Omega.{arith}
use text.Mathlib.Text.{◌==◌}
use text.Mathlib.TextEquality.{eq_iff}
use multi_ai_agent.Prelude.Tests.{if◌then◌else◌, Bool-cases}
use multi_ai_agent.Prelude.Lists.{length}

abbrev pub Dict {ℓ} : Type ℓ → Type ℓ
Dict V = List (String × V)

module _ {ℓ} {V : Type ℓ} where
  -- `d.get(k)`
  unfoldable pub get : String → Dict V → Option V
  get k [] = none
  get k ((j, v) ∷ d) = if j == k then some v else get k d

  -- `d[k] = v`
  unfoldable pub put : String → V → Dict V → Dict V
  put k v [] = (k, v) ∷ []
  put k v ((j, w) ∷ d) = let rest = put k v d in if j == k then (k, v) ∷ d else (j, w) ∷ rest

  -- `del d[k]`
  unfoldable pub remove : String → Dict V → Dict V
  remove k [] = []
  remove k ((j, v) ∷ d) = let rest = remove k d in if j == k then rest else (j, v) ∷ rest

  -- a method called on every value of the dict
  unfoldable pub map_values : (V → V) → Dict V → Dict V
  map_values f [] = []
  map_values f ((j, v) ∷ d) = (j, f v) ∷ map_values f d

  abbrev pub map_option : (V → V) → Option V → Option V
  map_option f none = none
  map_option f (some v) = some (f v)

  pub get-put :
      (k j : String) (v : V) (d : Dict V) → get j (put k v d) ≡ (if k == j then some v else get j d)
  unfolding get put
  get-put k j v [] = refl
  get-put k j v ((i, w) ∷ d) = ground (arith, eq_iff k j, eq_iff i k, eq_iff i j, get-put k j v d)

  pub get-remove :
      (k j : String) (d : Dict V) → get j (remove k d) ≡ (if k == j then none else get j d)
  unfolding get remove
  get-remove k j [] = ground arith
  get-remove k j ((i, v) ∷ d) = ground (arith, get-remove k j d, eq_iff i k, eq_iff i j, eq_iff k j)

  pub get-map_values :
      (f : V → V) (j : String) (d : Dict V) → get j (map_values f d) ≡ map_option f (get j d)
  unfolding get map_values
  get-map_values f j [] = refl
  get-map_values f j ((i, v) ∷ d) = ground (arith, get-map_values f j d)

  pub length-put : (k : String) (v : V) (d : Dict V) → length (put k v d) ≤ length d + 1
  unfolding put
  length-put k v [] = omega arith
  length-put k v ((i, w) ∷ d) = ground (arith, length-put k v d)

  pub remove-absent : (k : String) (d : Dict V) → get k d ≡ none → remove k d ≡ d
  unfolding get remove
  remove-absent k [] e = refl
  remove-absent k ((i, w) ∷ d) e = elim (Bool-cases (i == k)) [
    | inl p ↦ absurd (none-ne-some w (sym (rw p at e)))
    | inr p ↦ rw p (ap (λ l. (i, w) ∷ l) (remove-absent k d (rw p at e)))
  ]

  pub length-remove-le : (k : String) (d : Dict V) → length (remove k d) ≤ length d
  unfolding remove
  length-remove-le k [] = omega arith
  length-remove-le k ((i, w) ∷ d) = ground (arith, length-remove-le k d)

  -- removing a key that is there shortens the list
  pub length-remove-lt :
      (k : String) (d : Dict V) {v : V} → get k d ≡ some v → length (remove k d) + 1 ≤ length d
  unfolding get remove
  length-remove-lt k [] e = cc
  length-remove-lt k ((i, w) ∷ d) e = elim (Bool-cases (i == k)) [
    | inl p ↦ rw p (omega (arith, length-remove-le k d))
    | inr p ↦ rw p (omega (arith, length-remove-lt k d (rw p at e)))
  ]

  -- No key is there twice.
  abbrev pub HasUniqueKeys : Dict V → Type ℓ
  HasUniqueKeys [] = Unit
  HasUniqueKeys ((k, v) ∷ d) = (get k d ≡ none) × HasUniqueKeys d

  pub put-HasUniqueKeys :
      (k : String) (v : V) (d : Dict V) → HasUniqueKeys d → HasUniqueKeys (put k v d)
  unfolding put
  put-HasUniqueKeys k v [] h = (unfold get in refl, tt)
  put-HasUniqueKeys k v ((i, w) ∷ d) h = elim (Bool-cases (i == k)) [
    | inl p ↦ (let same : i ≡ k = (eq_iff i k).0 p in rw p (rw same at h.0, h.1))
    | inr p ↦ rw p (
      rw (get-put k i v d) (ground (arith, eq_iff i k, eq_iff k i, h.0)),
      put-HasUniqueKeys k v d h.1,
    )
  ]

  pub remove-HasUniqueKeys :
      (k : String) (d : Dict V) → HasUniqueKeys d → HasUniqueKeys (remove k d)
  unfolding remove
  remove-HasUniqueKeys k [] h = h
  remove-HasUniqueKeys k ((i, w) ∷ d) h = elim (Bool-cases (i == k)) [
    | inl p ↦ rw p (remove-HasUniqueKeys k d h.1)
    | inr p ↦ rw p (
      rw (get-remove k i d) (ground (arith, eq_iff i k, eq_iff k i, h.0)),
      remove-HasUniqueKeys k d h.1,
    )
  ]

  pub length-map_values : (f : V → V) (d : Dict V) → length (map_values f d) ≡ length d
  unfolding map_values
  length-map_values f [] = refl
  length-map_values f ((i, v) ∷ d) = omega (arith, length-map_values f d)

-- `{k: f(v) for k, v in d.items()}`
module _ {ℓ κ} {V : Type ℓ} {W : Type κ} where
  unfoldable pub map_to : (V → W) → Dict V → Dict W
  map_to f [] = []
  map_to f ((j, v) ∷ d) = (j, f v) ∷ map_to f d

pub ruleset dict_laws = (get-put, get-remove, get-map_values)
