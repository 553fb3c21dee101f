-- ===== src/Workflows/WorkflowLoader/Document/Merged.antt =====
-- What `_merge_specs` of libs/workflows/workflow_loader.py gives.
use multi_ai_agent.Prelude.{
  ◌≡◌, refl, Option, none, some, List, [], ◌∷◌, ◌++◌, map, ok, Result, All,
}
use multi_ai_agent.Workflows.Json.{Fields, no_fields}
use multi_ai_agent.Workflows.WorkflowLoader.{WorkflowStep, WorkflowTransition, WorkflowSpec}
use multi_ai_agent.Workflows.WorkflowLoader.Document.{
  WorkflowData, LoadError, or, parse_node, parse_edge, traverse, parse_workflow_data, truthy,
  step_to_dict, transition_to_dict, merge_fields, replace, merge_data, spec_to_dict, merge_specs,
}

-- an optional mapping that is not empty
abbrev IsTruthy : Option Fields → Type 0
IsTruthy fs = truthy fs ≡ fs

-- No optional mapping of the specification is empty: an empty one does not survive the conversion.
pub record IsTidy (spec : WorkflowSpec) : Type 0 where
  pub steps : All (λ (s : WorkflowStep). IsTruthy s.metadata) spec.steps
  pub transitions : All (λ (t : WorkflowTransition). IsTruthy t.metadata) spec.transitions
  pub feature_flags : IsTruthy spec.feature_flags
  pub quotas : IsTruthy spec.quotas
  pub security : IsTruthy spec.security
  pub monitoring : IsTruthy spec.monitoring

module _ {ℓ κ} {A : Type ℓ} {B : Type κ} where
  -- items that are read back, and then others
  traverse-back :
      (f : A → Result LoadError B) (g : B → A) (P : B → Type 0) (bs : List B) (rest : List A)
      (others : List B)
      → ((b : B) → P b → f (g b) ≡ ok b)
      → All P bs
      → traverse f rest ≡ ok others
      → traverse f (map g bs ++ rest) ≡ ok (bs ++ others)
  unfolding traverse
  traverse-back f g P [] rest others back h e = e
  traverse-back f g P (b ∷ bs) rest others back h e =
      rw (back b h.0, traverse-back f g P bs rest others back h.1 e) refl

parse_node-step_to_dict :
    (s : WorkflowStep) → IsTruthy s.metadata → parse_node (step_to_dict s) ≡ ok s
unfolding parse_node step_to_dict
parse_node-step_to_dict s h = rw h refl

parse_edge-transition_to_dict :
    (t : WorkflowTransition) → IsTruthy t.metadata → parse_edge (transition_to_dict t) ≡ ok t
unfolding parse_edge transition_to_dict
parse_edge-transition_to_dict t h = rw h refl

-- the specification with the override on top
abbrev pub on_top :
    WorkflowSpec → WorkflowData → List WorkflowStep → List WorkflowTransition → WorkflowSpec
on_top base override steps transitions = record {
  name = or override.name base.name;
  version = or override.version base.version;
  description = or override.description base.description;
  settings = or (merge_fields override.settings (some base.settings)) no_fields;
  steps = base.steps ++ steps;
  transitions = base.transitions ++ transitions;
  tools = or override.tools base.tools;
  error_handling = or override.error_handling base.error_handling;
  metrics = or override.metrics base.metrics;
  feature_flags = merge_fields override.feature_flags base.feature_flags;
  quotas = merge_fields override.quotas base.quotas;
  security = merge_fields override.security base.security;
  monitoring = merge_fields override.monitoring base.monitoring;
}

or-replace {ℓ} : {A : Type ℓ} (o : Option A) (b d : A) → or (replace o (some b)) d ≡ or o b
or-replace none b d = refl
or-replace (some a) b d = refl

-- The steps and transitions of the override that parse come after those of the base, its mappings
-- are merged into those of the base, and the other keys that it has replace those of the base, which
-- stay otherwise; the base has no empty optional mapping.
pub merge_specs_result :
    (base : WorkflowSpec) (override : WorkflowData) (steps : List WorkflowStep)
    (transitions : List WorkflowTransition)
    → IsTidy base
    → traverse parse_node (or override.nodes []) ≡ ok steps
    → traverse parse_edge (or override.edges []) ≡ ok transitions
    → merge_specs base override ≡ ok (on_top base override steps transitions)
unfolding merge_specs parse_workflow_data merge_data spec_to_dict
merge_specs_result base override steps transitions tidy read_steps read_transitions =
    rw
      (
        traverse-back parse_node step_to_dict (λ (s : WorkflowStep). IsTruthy s.metadata) base.steps
            (or override.nodes []) steps parse_node-step_to_dict tidy.steps read_steps,
        traverse-back parse_edge transition_to_dict
            (λ (t : WorkflowTransition). IsTruthy t.metadata) base.transitions
            (or override.edges []) transitions parse_edge-transition_to_dict tidy.transitions
            read_transitions,
        tidy.feature_flags,
        tidy.quotas,
        tidy.security,
        tidy.monitoring,
      )
      (simp or-replace)
