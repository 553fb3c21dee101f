-- ===== src/Tests/WorkflowLoader.antt =====
-- A support workflow of libs/workflows/workflow_loader.py with three steps.
use multi_ai_agent.Prelude.{◌≡◌, ◌↔◌, refl, true, none, some, List, [], ◌∷◌, String, ok, err}
use multi_ai_agent.Prelude.Dict.{get, put}
use multi_ai_agent.Prelude.Strings.{contains, distinct}
use multi_ai_agent.Workflows.Json.{Json, text, object, Fields, no_fields, field, lookup, assign}
use multi_ai_agent.Workflows.WorkflowLoader.{
  WorkflowStep, WorkflowTransition, WorkflowSpec, duplicate_ids, circular_dependency, missing_tool,
  validate_spec, check_transitions, check_circular_dependencies, search_cycles, node_names,
  build_graph, empty_graph, add_edges, validate_steps, validate_step,
}
use multi_ai_agent.Workflows.WorkflowLoader.Cycle.{
  has_cycle, visit_all, scan, look, neighbors, discard,
}
use multi_ai_agent.Workflows.WorkflowLoader.Validation.{IsValid, validate_spec_correct}
use multi_ai_agent.Workflows.WorkflowLoader.Merge.{
  deep_merge, at_path, is_leaf, Misses, IsParsed, deep_merge_paths,
}

abbrev step : String → String → Fields → WorkflowStep
step id type config = record { id = id; type = type; name = id; config = config; metadata = none }

abbrev go : String → String → WorkflowTransition
go from to = record { from_step = from; to_step = to; condition = "true"; metadata = none }

abbrev pub search_config : Fields
search_config = field "tool" (text "search") no_fields

abbrev pub spec_of : List WorkflowStep → List WorkflowTransition → WorkflowSpec
spec_of steps transitions = record {
  name = "support";
  version = "1.0.0";
  description = "";
  settings = field "timeout" (text "30") no_fields;
  steps = steps;
  transitions = transitions;
  tools = [];
  error_handling = [];
  metrics = [];
  feature_flags = none;
  quotas = none;
  security = none;
  monitoring = none;
}

abbrev pub three_steps : List WorkflowStep
three_steps =
    step "begin" "start" no_fields
    ∷ step "find" "tool_call" search_config
    ∷ step "reply" "agent" no_fields
    ∷ []

abbrev pub forward : List WorkflowTransition
forward = go "begin" "find" ∷ go "find" "reply" ∷ go "begin" "reply" ∷ go "reply" "end" ∷ []

abbrev pub support : WorkflowSpec
support = spec_of three_steps forward

validate_runs :
    (validate_spec support ≡ ok tt)
    × (validate_spec (spec_of three_steps (go "reply" "begin" ∷ forward)) ≡ err circular_dependency)
    × (validate_spec (spec_of (step "find" "agent" no_fields ∷ three_steps) forward)
        ≡ err duplicate_ids)
    × (validate_spec (spec_of (step "ask" "tool_call" no_fields ∷ three_steps) forward)
        ≡ err missing_tool)
unfolding validate_spec check_transitions check_circular_dependencies search_cycles node_names
    build_graph empty_graph add_edges validate_steps validate_step has_cycle visit_all scan look
    neighbors discard get put contains distinct lookup
validate_runs = (refl, refl, refl, refl)

validate_spec_correct_example : (validate_spec support ≡ ok tt) ↔ IsValid support
validate_spec_correct_example = validate_spec_correct support

-- {"limits": {"cost": "1", "steps": "5"}}
abbrev base : Fields
base =
    field "limits" (object (field "cost" (text "1") (field "steps" (text "5") no_fields))) no_fields

-- {"limits": {"cost": "2"}}
abbrev override : Fields
override = field "limits" (object (field "cost" (text "2") no_fields)) no_fields

deep_merge_paths_example :
    let at = λ (fs : Fields). at_path ("limits" ∷ "cost" ∷ []) (some (object fs)) in
    ((v : Json) → at override ≡ some v → is_leaf v ≡ true → at (deep_merge override base) ≡ some v)
    × (Misses ("limits" ∷ "cost" ∷ []) (some (object override))
        → at (deep_merge override base) ≡ at base)
unfolding lookup IsParsed
deep_merge_paths_example =
    deep_merge_paths override base ("limits" ∷ "cost" ∷ []) (refl, (refl, tt, tt), tt)

merge_runs :
    deep_merge override base
    ≡ field "limits"
        (object (field "cost" (text "2") (field "steps" (text "5") no_fields)))
        no_fields
unfolding deep_merge lookup assign
merge_runs = refl
