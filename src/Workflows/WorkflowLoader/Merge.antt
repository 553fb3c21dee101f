-- ===== src/Workflows/WorkflowLoader/Merge.antt =====
-- `_deep_merge` of libs/workflows/workflow_loader.py on parsed mappings. The overriding mapping comes
-- first here, since the recursion is on it.
use multi_ai_agent.Prelude.{
  ◌≡◌, refl, ap, ◌∙◌, Bool, true, false, Option, none, some, String, str_eq, eq_iff, eq_refl, inl,
  inr, Bool-cases, List, [], ◌∷◌,
}
use multi_ai_agent.Workflows.Json.{
  Json, object, Fields, no_fields, field, lookup, assign, HasUniqueFields, lookup-assign,
}

unfoldable mutual
  -- the value of a key that `result` may have
  pub merge_value : Json → Option Json → Json
  merge_value (object override) (some (object base)) = object (deep_merge override base)
  merge_value value _ = value

  pub deep_merge : Fields → Fields → Fields
  deep_merge no_fields result = result
  deep_merge (field k v override) result =
      deep_merge override (assign k (merge_value v (lookup k result)) result)

-- what stands at a key after the merge
abbrev pub merged : Option Json → Option Json → Option Json
merged none base = base
merged (some v) base = some (merge_value v base)

-- After the merge a key has the value of the overriding mapping, if it has one, merged likewise where
-- both are mappings, and else the value of the base; the overriding mapping has no key twice.
pub lookup-deep_merge :
    (override base : Fields) (k : String)
    → HasUniqueFields override
    → lookup k (deep_merge override base) ≡ merged (lookup k override) (lookup k base)
unfolding deep_merge lookup
lookup-deep_merge no_fields base k h = refl
lookup-deep_merge (field j v override) base k h = elim (Bool-cases (str_eq j k)) [
  | inl e ↦
      (let same : j ≡ k = (eq_iff j k).0 e in
        rw (lookup-deep_merge override (assign j (merge_value v (lookup j base)) base) k h.1)
          (rw (← same, h.0, lookup-assign, eq_refl) refl))
  | inr e ↦ rw e (
      rw (lookup-deep_merge override (assign j (merge_value v (lookup j base)) base) k h.1)
        (rw (lookup-assign, e) refl))
]

-- the value at the end of a path of keys, and `none` where a key is missing or no mapping is reached
abbrev pub at_path : List String → Option Json → Option Json
at_path [] v = v
at_path (k ∷ path) (some (object fs)) = at_path path (lookup k fs)
at_path (k ∷ path) none = none
at_path (k ∷ path) (some v) = none

-- The override has no value there: a key on the way is missing.
abbrev pub Misses : List String → Option Json → Type 0
Misses path none = Unit
Misses [] (some v) = ⊥
Misses (k ∷ path) (some (object fs)) = Misses path (lookup k fs)
Misses (k ∷ path) (some v) = ⊥

-- no mapping
abbrev pub is_leaf : Json → Bool
is_leaf (object fs) = false
is_leaf _ = true

-- No mapping in the value has a key twice.
unfoldable mutual
  pub IsParsed : Json → Type 0
  IsParsed (object fs) = AreParsed fs
  IsParsed _ = Unit

  pub AreParsed : Fields → Type 0
  AreParsed no_fields = Unit
  AreParsed (field k v fs) = (lookup k fs ≡ none) × IsParsed v × AreParsed fs

unique : (fs : Fields) → AreParsed fs → HasUniqueFields fs
unfolding IsParsed
unique no_fields h = tt
unique (field k v fs) h = (h.0, unique fs h.2)

abbrev IsParsedOption : Option Json → Type 0
IsParsedOption none = Unit
IsParsedOption (some v) = IsParsed v

lookup-IsParsed : (fs : Fields) (k : String) → AreParsed fs → IsParsedOption (lookup k fs)
unfolding IsParsed lookup
lookup-IsParsed no_fields k h = tt
lookup-IsParsed (field j w fs) k h = elim (Bool-cases (str_eq j k)) [
  | inl p ↦ rw p h.1
  | inr p ↦ rw p (lookup-IsParsed fs k h.2)
]

at_path-Misses : (path : List String) (v : Option Json) → Misses path v → at_path path v ≡ none
at_path-Misses [] none h = refl
at_path-Misses (k ∷ path) none h = refl
at_path-Misses (k ∷ path) (some (object fs)) h = at_path-Misses path (lookup k fs) h
at_path-Misses [] (some v) h = absurd h
at_path-Misses (k ∷ path) (some v) h = absurd h

-- one key further
merge_step :
    (path : List String) (k : String) (o b : Fields)
    → AreParsed o
    → at_path (k ∷ path) (some (object (deep_merge o b)))
      ≡ at_path path (merged (lookup k o) (lookup k b))
merge_step path k o b h = ap (at_path path) (lookup-deep_merge o b k (unique o h))

-- Where the overriding value misses, the base shows through.
merged-Misses :
    (path : List String) (o b : Option Json)
    → IsParsedOption o
    → Misses path o
    → at_path path (merged o b) ≡ at_path path b
unfolding deep_merge IsParsed
merged-Misses path none b p h = refl
merged-Misses (k ∷ path) (some (object o)) (some (object b)) p h =
    merge_step path k o b p ∙ merged-Misses path (lookup k o) (lookup k b) (lookup-IsParsed o k p) h
merged-Misses (k ∷ path) (some (object o)) (some v) p h = at_path-Misses path (lookup k o) h
merged-Misses (k ∷ path) (some (object o)) none p h = at_path-Misses path (lookup k o) h
merged-Misses (k ∷ path) (some v) b p h = absurd h
merged-Misses [] (some v) b p h = absurd h

merge_value-leaf : (v : Json) (b : Option Json) → is_leaf v ≡ true → merge_value v b ≡ v
unfolding deep_merge
merge_value-leaf (object o) b h = cc
merge_value-leaf v b h = refl

merged-leaf :
    (path : List String) (o b : Option Json) (v : Json)
    → IsParsedOption o
    → at_path path o ≡ some v
    → is_leaf v ≡ true
    → at_path path (merged o b) ≡ some v
unfolding deep_merge IsParsed
merged-leaf [] none b v p e h = cc
merged-leaf [] (some w) b v p e h =
    let same : w ≡ v = cc in rw same (ap some (merge_value-leaf v b h))
merged-leaf (k ∷ path) none b v p e h = cc
merged-leaf (k ∷ path) (some (object o)) (some (object b)) v p e h =
    merge_step path k o b p
    ∙ merged-leaf path (lookup k o) (lookup k b) v (lookup-IsParsed o k p) e h
merged-leaf (k ∷ path) (some (object o)) (some w) v p e h = e
merged-leaf (k ∷ path) (some (object o)) none v p e h = e
merged-leaf (k ∷ path) (some w) b v p e h = cc

-- After the merge every path that ends at a leaf of the overriding mapping, whatever stands there in
-- the base, ends at that leaf, and every path on which the overriding mapping lacks a key leads to
-- what it leads to in the base; no mapping within the overriding one has a key twice.
pub deep_merge_paths :
    (override base : Fields) (path : List String)
    → AreParsed override
    → let at = λ (fs : Fields). at_path path (some (object fs)) in
      ((v : Json)
        → at override ≡ some v
        → is_leaf v ≡ true
        → at (deep_merge override base) ≡ some v)
      × (Misses path (some (object override)) → at (deep_merge override base) ≡ at base)
unfolding deep_merge IsParsed
deep_merge_paths override base path h = (
  λ v e leaf. merged-leaf path (some (object override)) (some (object base)) v h e leaf,
  λ m. merged-Misses path (some (object override)) (some (object base)) h m,
)
