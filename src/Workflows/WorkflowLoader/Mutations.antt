-- ===== src/Workflows/WorkflowLoader/Mutations.antt =====
-- The mutations of libs/workflows/workflow_loader.py, on the steps of a parsed document. A step that
-- is looked for is found by its id, which both may lack.
use multi_ai_agent.Prelude.{
  ℕ, zero, suc, ◌≡◌, refl, ap, Bool, true, false, Option, none, some, List, [], ◌∷◌, ◌++◌, String,
  str_eq, if◌then◌else◌, length, set, All,
}
use multi_ai_agent.Workflows.Json.{Fields, no_fields, boolean, assign}
use multi_ai_agent.Workflows.WorkflowLoader.Document.{Node, or}
use multi_ai_agent.Workflows.WorkflowLoader.Loading.{insert_at}

pub record MutableSpec : Type 0 where
  -- `spec["workflow"]["steps"]`
  pub steps : Option (List Node)
  pub feature_flags : Option Fields

pub data Mutation : Type 0 where
  insert_after : Option String → Node → Mutation
  insert_before : Option String → Node → Mutation
  replace_step : Option String → Node → Mutation
  remove_step : Option String → Mutation
  enable : String → Mutation
  disable : String → Mutation
  -- a type that is not known is passed over
  other : Mutation

abbrev pub same_id : Option String → Option String → Bool
same_id none none = true
same_id (some a) (some b) = str_eq a b
same_id _ _ = false

unfoldable pub find_step_index : Option String → List Node → Option ℕ
find_step_index target [] = none
find_step_index target (s ∷ steps) =
    let rest = find_step_index target steps in
    if same_id s.id target then some 0 else elim rest [ none ↦ none | some i ↦ some (suc i) ]

-- `list.pop(i)`
abbrev pub pop_at : ℕ → List Node → List Node
pop_at i [] = []
pop_at zero (s ∷ steps) = steps
pop_at (suc i) (s ∷ steps) = s ∷ pop_at i steps

-- the change at the index that is found
abbrev pub at_index : (ℕ → List Node → List Node) → Option ℕ → List Node → List Node
at_index f none steps = steps
at_index f (some i) steps = f i steps

-- A document without steps gets none: the list that stands in for them is dropped.
abbrev pub on_steps : (ℕ → List Node → List Node) → Option String → MutableSpec → MutableSpec
on_steps f target spec = elim spec.steps [
  | none ↦ spec
  | some steps ↦ record spec { steps = some (at_index f (find_step_index target steps) steps) }
]

abbrev pub set_flag : String → Bool → MutableSpec → MutableSpec
set_flag feature value spec = record spec {
  feature_flags = some (assign feature (boolean value) (or spec.feature_flags no_fields));
}

unfoldable pub mutate : Mutation → MutableSpec → MutableSpec
mutate (insert_after target step) spec =
    on_steps (λ i steps. insert_at (suc i) step steps) target spec
mutate (insert_before target step) spec = on_steps (λ i steps. insert_at i step steps) target spec
mutate (replace_step target step) spec = on_steps (λ i steps. set steps i step) target spec
mutate (remove_step target) spec = on_steps pop_at target spec
mutate (enable feature) spec = set_flag feature true spec
mutate (disable feature) spec = set_flag feature false spec
mutate other spec = spec

unfoldable pub apply_mutations : List Mutation → MutableSpec → MutableSpec
apply_mutations [] spec = spec
apply_mutations (m ∷ mutations) spec = apply_mutations mutations (mutate m spec)

-- No step of the list has the id.
abbrev pub Lack : Option String → List Node → Type 0
Lack target steps = All (λ (s : Node). same_id s.id target ≡ false) steps

find_step_index-at :
    (target : Option String) (before : List Node) (s : Node) (after : List Node)
    → Lack target before
    → same_id s.id target ≡ true
    → find_step_index target (before ++ s ∷ after) ≡ some (length before)
unfolding find_step_index
find_step_index-at target [] s after h e = rw e refl
find_step_index-at target (b ∷ before) s after h e =
    rw (h.0, find_step_index-at target before s after h.1 e) refl

find_step_index-none :
    (target : Option String) (steps : List Node)
    → Lack target steps
    → find_step_index target steps ≡ none
unfolding find_step_index
find_step_index-none target [] h = refl
find_step_index-none target (s ∷ steps) h = rw (h.0, find_step_index-none target steps h.1) refl

insert_at-before :
    (before : List Node) (step : Node) (after : List Node)
    → insert_at (length before) step (before ++ after) ≡ before ++ step ∷ after
insert_at-before [] step [] = refl
insert_at-before [] step (s ∷ after) = refl
insert_at-before (b ∷ before) step after = ap (λ l. b ∷ l) (insert_at-before before step after)

insert_at-behind :
    (before : List Node) (s step : Node) (after : List Node)
    → insert_at (suc (length before)) step (before ++ s ∷ after) ≡ before ++ s ∷ step ∷ after
insert_at-behind [] s step [] = refl
insert_at-behind [] s step (t ∷ after) = refl
insert_at-behind (b ∷ before) s step after = ap (λ l. b ∷ l) (insert_at-behind before s step after)

set-at :
    (before : List Node) (s step : Node) (after : List Node)
    → set (before ++ s ∷ after) (length before) step ≡ before ++ step ∷ after
set-at [] s step after = refl
set-at (b ∷ before) s step after = ap (λ l. b ∷ l) (set-at before s step after)

pop_at-at :
    (before : List Node) (s : Node) (after : List Node)
    → pop_at (length before) (before ++ s ∷ after) ≡ before ++ after
pop_at-at [] s after = refl
pop_at-at (b ∷ before) s after = ap (λ l. b ∷ l) (pop_at-at before s after)

abbrev with_steps : MutableSpec → List Node → MutableSpec
with_steps spec steps = record spec { steps = some steps }

-- The first step with the id of the target stays with the new step behind it or before it, is
-- replaced, or is removed; all other steps stay, in their order.
pub mutate_at_target :
    (spec : MutableSpec) (target : Option String) (before : List Node) (s : Node)
    (after : List Node) (step : Node)
    → Lack target before
    → same_id s.id target ≡ true
    → let old = with_steps spec (before ++ s ∷ after) in
      (mutate (insert_after target step) old ≡ with_steps spec (before ++ s ∷ step ∷ after))
      × (mutate (insert_before target step) old ≡ with_steps spec (before ++ step ∷ s ∷ after))
      × (mutate (replace_step target step) old ≡ with_steps spec (before ++ step ∷ after))
      × (mutate (remove_step target) old ≡ with_steps spec (before ++ after))
unfolding mutate
mutate_at_target spec target before s after step h e =
    let found = find_step_index-at target before s after h e in
    (
      rw (found, insert_at-behind) refl,
      rw (found, insert_at-before) refl,
      rw (found, set-at) refl,
      rw (found, pop_at-at) refl,
    )
