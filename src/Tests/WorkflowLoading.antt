-- ===== src/Tests/WorkflowLoading.antt =====
-- Loading of the support workflow of libs/workflows/workflow_loader.py, merged, changed and cached.
use multi_ai_agent.Prelude.{◌≡◌, ◌↔◌, refl, none, some, [], ◌∷◌, String, Result, ok, err}
use multi_ai_agent.Prelude.Dict.{get, put}
use multi_ai_agent.Prelude.Strings.{contains, distinct}
use multi_ai_agent.Workflows.Json.{text, no_fields, field, lookup}
use multi_ai_agent.Workflows.WorkflowLoader.{
  WorkflowSpec, duplicate_ids, validate_spec, check_transitions, check_circular_dependencies,
  search_cycles, node_names, build_graph, empty_graph, add_edges, validate_steps, validate_step,
}
use multi_ai_agent.Workflows.WorkflowLoader.Cycle.{
  has_cycle, visit_all, scan, look, neighbors, discard,
}
use multi_ai_agent.Workflows.WorkflowLoader.Document.{
  merge_override, Node, EdgeData, WorkflowData, LoadError, value_error, type_error, file_not_found,
  merge_specs, parse_node, parse_edge, traverse, parse_workflow_data,
}
use multi_ai_agent.Workflows.WorkflowLoader.Document.Merged.{on_top, merge_specs_result}
use multi_ai_agent.Workflows.WorkflowLoader.Loading.{
  Document, load_workflow_from_data, find_index, insert_node, insert_nodes, apply_insert_after,
  parse_and_validate,
}
use multi_ai_agent.Workflows.WorkflowLoader.Loading.Reload.{inserting, reload_raises}
use multi_ai_agent.Workflows.WorkflowLoader.Loading.Cache.{
  Files, HasValid, LoadOutcome, Bare, cache_key, build_workflow, load_workflow,
  load_workflow_outcome, load_workflow-Bare,
}
use multi_ai_agent.Workflows.WorkflowLoader.Mutations.{
  MutableSpec, mutate, insert_after, insert_before, replace_step, remove_step, mutate_at_target,
}
use multi_ai_agent.Tests.WorkflowLoader.{support}

abbrev node : String → String → Node
node id type = record {
  id = some id;
  type = some type;
  name = none;
  config = none;
  metadata = none;
}

abbrev edge : String → String → EdgeData
edge from to = record { from = some from; to = some to; condition = none; metadata = none }

abbrev nothing : WorkflowData
nothing = record {
  name = none;
  version = none;
  description = none;
  nodes = none;
  edges = none;
  settings = none;
  tools = none;
  error_handling = none;
  metrics = none;
  feature_flags = none;
  quotas = none;
  security = none;
  monitoring = none;
}

abbrev slower : WorkflowData
slower = record nothing {
  nodes = some (node "audit" "agent" ∷ []);
  edges = some (edge "reply" "audit" ∷ []);
  settings = some (field "timeout" (text "60") no_fields);
}

merge_specs_result_example :
    merge_specs support slower
    ≡ ok (
        on_top support slower
          (record {
            id = "audit";
            type = "agent";
            name = "audit";
            config = no_fields;
            metadata = none;
          }
            ∷ [])
          (record { from_step = "reply"; to_step = "audit"; condition = "true"; metadata = none }
            ∷ []))
unfolding parse_node parse_edge traverse
merge_specs_result_example =
    merge_specs_result support slower _ _
      (record {
        steps = (refl, (refl, (refl, tt)));
        transitions = (refl, (refl, (refl, (refl, tt))));
        feature_flags = refl;
        quotas = refl;
        security = refl;
        monitoring = refl;
      })
      refl refl

abbrev no_files : String → Result LoadError WorkflowSpec
no_files name = err (file_not_found name)

abbrev triage : WorkflowData
triage = record nothing { name = some "triage" }

abbrev triage_document : Document
triage_document =
    inserting triage (node "begin" "start" ∷ node "reply" "agent" ∷ [])
      (some (edge "begin" "reply" ∷ [])) "begin" (node "check" "agent" ∷ [])

reload_raises_example :
    (load_workflow_from_data no_files (load_workflow_from_data no_files triage_document).0).1
    ≡ err (value_error duplicate_ids)
unfolding load_workflow_from_data find_index insert_node insert_nodes apply_insert_after
    parse_and_validate validate_spec check_transitions check_circular_dependencies search_cycles
    node_names build_graph empty_graph add_edges validate_steps validate_step has_cycle visit_all
    scan look neighbors discard get put contains distinct lookup parse_node parse_edge traverse
    parse_workflow_data
reload_raises_example =
    reload_raises no_files triage (some (edge "begin" "reply" ∷ [])) "begin" []
      (node "begin" "start") (node "reply" "agent" ∷ []) (node "check" "agent") [] _ tt refl
      (("check", refl), tt) ("reply", refl) refl

abbrev files : Files
files = record {
  base = λ name. ok support;
  tenant = λ id name. ok none;
  environment = λ environment name. ok (some support);
}

no_entry : HasValid []
unfolding get
no_entry = λ key spec e. cc

load_workflow_outcome_example :
    HasValid (load_workflow files "support" none "production" []).0
    × LoadOutcome
        (cache_key "support" none "production")
        []
        (load_workflow files "support" none "production" [])
load_workflow_outcome_example = load_workflow_outcome files "support" none "production" [] no_entry

overridden_raises : load_workflow files "support" none "production" [] ≡ ([], err type_error)
unfolding load_workflow build_workflow merge_override get
overridden_raises = refl

abbrev bare_files : Files
bare_files = record files { environment = λ environment name. ok none }

load_workflow-Bare_example :
    ((load_workflow bare_files "support" (some "acme") "production" []).1 ≡ ok support)
    ↔ Bare bare_files "support" (some "acme") "production" support
unfolding get
load_workflow-Bare_example =
    load_workflow-Bare bare_files "support" (some "acme") "production" [] support refl

abbrev plain : MutableSpec
plain = record { steps = none; feature_flags = none }

abbrev with_two : MutableSpec
with_two = record plain { steps = some (node "begin" "start" ∷ node "reply" "agent" ∷ []) }

mutate_at_target_example :
    (mutate (insert_after (some "reply") (node "log" "agent")) with_two ≡ record plain {
      steps = some (node "begin" "start" ∷ node "reply" "agent" ∷ node "log" "agent" ∷ []);
    })
    × (mutate (insert_before (some "reply") (node "log" "agent")) with_two ≡ record plain {
      steps = some (node "begin" "start" ∷ node "log" "agent" ∷ node "reply" "agent" ∷ []);
    })
    × (mutate (replace_step (some "reply") (node "log" "agent")) with_two
        ≡ record plain { steps = some (node "begin" "start" ∷ node "log" "agent" ∷ []) })
    × (mutate (remove_step (some "reply")) with_two
        ≡ record plain { steps = some (node "begin" "start" ∷ []) })
mutate_at_target_example =
    mutate_at_target plain (some "reply") (node "begin" "start" ∷ []) (node "reply" "agent") []
      (node "log" "agent") (refl, tt) refl
