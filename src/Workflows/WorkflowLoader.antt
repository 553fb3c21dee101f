-- ===== src/Workflows/WorkflowLoader.antt =====
-- libs/workflows/workflow_loader.py: the specification of a workflow and its validation. The texts
-- of the messages are constructors. The fuel of the search for cycles is the number of step ids and
-- of transitions; the interpreter's limit on recursion is not modelled.
pub mod Cycle
pub mod Edges
pub mod Validation
pub mod Merge
pub mod Document
pub mod Loading
pub mod Mutations
use Prim.Native.Char.{code}
use multi_ai_agent.Prelude.{
  ℕ, ◌+◌, Bool, true, false, not, ◌&&◌, ◌||◌, Option, none, some, List, [], ◌∷◌, ◌++◌, map, String,
  str_eq, length, leb, ◌==◌, if◌then◌else◌, Result, ok, err, is_some,
}
use multi_ai_agent.Prelude.Dict.{Dict, get, put}
use multi_ai_agent.Prelude.Strings.{contains, distinct}
use multi_ai_agent.Workflows.Json.{Json, Fields, lookup}
use multi_ai_agent.Workflows.WorkflowLoader.Cycle.{
  Graph, Visit, Search, cyclic, clear, out_of_fuel, has_cycle, visit_all,
}

pub record WorkflowStep : Type 0 where
  pub id : String
  pub type : String
  pub name : String
  pub config : Fields
  pub metadata : Option Fields

pub record WorkflowTransition : Type 0 where
  pub from_step : String
  pub to_step : String
  pub condition : String
  pub metadata : Option Fields

pub record WorkflowSpec : Type 0 where
  pub name : String
  pub version : String
  pub description : String
  pub settings : Fields
  pub steps : List WorkflowStep
  pub transitions : List WorkflowTransition
  pub tools : List Fields
  pub error_handling : List Fields
  pub metrics : List Fields
  pub feature_flags : Option Fields
  pub quotas : Option Fields
  pub security : Option Fields
  pub monitoring : Option Fields

-- the exceptions of the validation
pub data Invalid : Type 0 where
  missing_name : Invalid
  duplicate_ids : Invalid
  -- the message names the target of the edge
  nonexistent_node : String → Invalid
  circular_dependency : Invalid
  missing_step_id : Invalid
  missing_step_type : Invalid
  missing_step_name : Invalid
  invalid_node_type : String → Invalid
  missing_schema : Invalid
  missing_tool : Invalid
  recursion_error : Invalid

-- the characters that `strip` removes
abbrev is_space : ℕ → Bool
is_space c =
    leb 9 c && leb c 13
    || leb 28 c && leb c 32
    || c == 133
    || c == 160
    || c == 5760
    || leb 8192 c && leb c 8202
    || c == 8232
    || c == 8233
    || c == 8239
    || c == 8287
    || c == 12288

-- `not name or not name.strip()`
abbrev pub is_blank : String → Bool
is_blank String.[] = true
is_blank (String.◌∷◌ c s) = is_space (code c) && is_blank s

abbrev pub step_ids : List WorkflowStep → List String
step_ids steps = map (λ (s : WorkflowStep). s.id) steps

abbrev pub and_check :
    Result Invalid (Unit {0}) → Result Invalid (Unit {0}) → Result Invalid (Unit {0})
and_check (ok u) next = next
and_check (err e) next = err e

unfoldable pub check_transitions : List String → List WorkflowTransition → Result Invalid (Unit {0})
check_transitions ids [] = ok tt
check_transitions ids (t ∷ transitions) =
    let rest = check_transitions ids transitions in
    if not (contains t.from_step ids)
    then err (nonexistent_node t.to_step)
    else if not (contains t.to_step ids) && not (str_eq t.to_step "end")
    then err (nonexistent_node t.to_step)
    else rest

-- `{step.id: [] for step in spec.steps}`
unfoldable pub empty_graph : List WorkflowStep → Graph → Graph
empty_graph [] graph = graph
empty_graph (s ∷ steps) graph = empty_graph steps (put s.id [] graph)

abbrev pub add_edge : WorkflowTransition → Option (List String) → Graph → Graph
add_edge t none graph = graph
add_edge t (some nodes) graph = put t.from_step (nodes ++ t.to_step ∷ []) graph

unfoldable pub add_edges : List WorkflowTransition → Graph → Graph
add_edges [] graph = graph
add_edges (t ∷ transitions) graph = add_edges transitions (add_edge t (get t.from_step graph) graph)

unfoldable pub build_graph : WorkflowSpec → Graph
build_graph spec = add_edges spec.transitions (empty_graph spec.steps [])

-- the names a search may meet
unfoldable pub node_names : WorkflowSpec → List String
node_names spec =
    step_ids spec.steps ++ map (λ (t : WorkflowTransition). t.to_step) spec.transitions

unfoldable pub search_cycles : WorkflowSpec → Search
search_cycles spec =
    visit_all (has_cycle (build_graph spec) (length (node_names spec))) (step_ids spec.steps)
      (record { visited = []; rec_stack = [] })

abbrev pub raise_if_cyclic : Search → Result Invalid (Unit {0})
raise_if_cyclic cyclic = err circular_dependency
raise_if_cyclic (clear s) = ok tt
raise_if_cyclic out_of_fuel = err recursion_error

unfoldable pub check_circular_dependencies : WorkflowSpec → Result Invalid (Unit {0})
check_circular_dependencies spec = raise_if_cyclic (search_cycles spec)

abbrev pub valid_types : List String
valid_types =
    "start" ∷ "end" ∷ "agent" ∷ "validator" ∷ "tool_call" ∷ "condition" ∷ "parallel" ∷ "sequential"
    ∷ []

-- `key in config`
abbrev pub has_key : String → Fields → Bool
has_key k config = is_some (lookup k config)

unfoldable pub validate_step : WorkflowStep → Result Invalid (Unit {0})
validate_step step =
    if str_eq step.id ""
    then err missing_step_id
    else if str_eq step.type ""
    then err missing_step_type
    else if str_eq step.name ""
    then err missing_step_name
    else if not (contains step.type valid_types)
    then err (invalid_node_type step.type)
    else if str_eq step.type "validator"
        && not (has_key "schema" step.config)
        && not (has_key "rules" step.config)
    then err missing_schema
    else if str_eq step.type "tool_call" && not (has_key "tool" step.config)
    then err missing_tool
    else ok tt

unfoldable pub validate_steps : List WorkflowStep → Result Invalid (Unit {0})
validate_steps [] = ok tt
validate_steps (s ∷ steps) = and_check (validate_step s) (validate_steps steps)

unfoldable pub validate_spec : WorkflowSpec → Result Invalid (Unit {0})
validate_spec spec =
    let ids = step_ids spec.steps in
    if is_blank spec.name
    then err missing_name
    else if not (length ids == length (distinct ids))
    then err duplicate_ids
    else and_check (check_transitions ids spec.transitions)
        (and_check (check_circular_dependencies spec) (validate_steps spec.steps))
