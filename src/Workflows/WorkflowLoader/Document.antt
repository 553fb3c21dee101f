-- ===== src/Workflows/WorkflowLoader/Document.antt =====
-- The documents that libs/workflows/workflow_loader.py parses, with the shapes that its annotations
-- give; a key that a document lacks is `none`. A list or mapping that a document shares with the
-- caller is changed in place, so the loading from data returns the caller's document as well.
pub mod Merged
use multi_ai_agent.Prelude.{
  ℕ, suc, ◌+◌, Bool, true, false, Option, none, some, List, [], ◌∷◌, ◌++◌, map, String, str_eq,
  if◌then◌else◌, Result, ok, err, is_some, length, get_elem?,
}
use multi_ai_agent.Prelude.Dict.{Dict}
use multi_ai_agent.Workflows.Json.{Fields, no_fields, field}
use multi_ai_agent.Workflows.WorkflowLoader.{
  WorkflowStep, WorkflowTransition, WorkflowSpec, Invalid, validate_spec,
}
use multi_ai_agent.Workflows.WorkflowLoader.Merge.{deep_merge}

pub record Node : Type 0 where
  pub id : Option String
  pub type : Option String
  pub name : Option String
  pub config : Option Fields
  pub metadata : Option Fields

pub record EdgeData : Type 0 where
  pub from : Option String
  pub to : Option String
  pub condition : Option String
  pub metadata : Option Fields

pub record WorkflowData : Type 0 where
  pub name : Option String
  pub version : Option String
  pub description : Option String
  pub nodes : Option (List Node)
  pub edges : Option (List EdgeData)
  pub settings : Option Fields
  pub tools : Option (List Fields)
  pub error_handling : Option (List Fields)
  pub metrics : Option (List Fields)
  pub feature_flags : Option Fields
  pub quotas : Option Fields
  pub security : Option Fields
  pub monitoring : Option Fields

pub data LoadError : Type 0 where
  key_error : String → LoadError
  value_error : Invalid → LoadError
  type_error : LoadError
  attribute_error : LoadError
  file_not_found : String → LoadError

-- `data.get(key, default)`
abbrev pub or {ℓ} : {A : Type ℓ} → Option A → A → A
or none d = d
or (some a) d = a

abbrev pub bind {ℓ κ} :
    {A : Type ℓ} {B : Type κ} → Result LoadError A → (A → Result LoadError B) → Result LoadError B
bind (ok a) k = k a
bind (err e) k = err e

-- `data[key]`
abbrev pub need {ℓ} : {A : Type ℓ} → String → Option A → Result LoadError A
need key none = err (key_error key)
need key (some a) = ok a

unfoldable pub parse_node : Node → Result LoadError WorkflowStep
parse_node node = bind (need "id" node.id) (λ id. bind (need "type" node.type) (λ type. ok (record {
  id = id;
  type = type;
  name = or node.name id;
  config = or node.config no_fields;
  metadata = node.metadata;
})))

unfoldable pub parse_edge : EdgeData → Result LoadError WorkflowTransition
parse_edge edge = bind (need "from" edge.from) (λ from. bind (need "to" edge.to) (λ to. ok (record {
  from_step = from;
  to_step = to;
  condition = or edge.condition "true";
  metadata = edge.metadata;
})))

-- a loop that appends what each item gives
unfoldable pub traverse {ℓ κ} :
    {A : Type ℓ} {B : Type κ} → (A → Result LoadError B) → List A → Result LoadError (List B)
traverse f [] = ok []
traverse f (a ∷ rest) = bind (f a) (λ b. bind (traverse f rest) (λ bs. ok (b ∷ bs)))

unfoldable pub parse_workflow_data : WorkflowData → Result LoadError WorkflowSpec
parse_workflow_data d = bind (traverse parse_node (or d.nodes [])) (λ steps.
    bind (traverse parse_edge (or d.edges [])) (λ transitions. ok (record {
      name = or d.name "";
      version = or d.version "1.0.0";
      description = or d.description "";
      settings = or d.settings no_fields;
      steps = steps;
      transitions = transitions;
      tools = or d.tools [];
      error_handling = or d.error_handling [];
      metrics = or d.metrics [];
      feature_flags = d.feature_flags;
      quotas = d.quotas;
      security = d.security;
      monitoring = d.monitoring;
    })))

-- `if fields:`
abbrev pub truthy : Option Fields → Option Fields
truthy (some (field k v fs)) = some (field k v fs)
truthy _ = none

unfoldable pub step_to_dict : WorkflowStep → Node
step_to_dict step = record {
  id = some step.id;
  type = some step.type;
  name = some step.name;
  config = some step.config;
  metadata = truthy step.metadata;
}

unfoldable pub transition_to_dict : WorkflowTransition → EdgeData
transition_to_dict t = record {
  from = some t.from_step;
  to = some t.to_step;
  condition = some t.condition;
  metadata = truthy t.metadata;
}

-- a key of the merge: a mapping is merged, all else replaced
abbrev pub merge_fields : Option Fields → Option Fields → Option Fields
merge_fields (some override) (some base) = some (deep_merge override base)
merge_fields (some override) none = some override
merge_fields none base = base

abbrev pub replace {ℓ} : {A : Type ℓ} → Option A → Option A → Option A
replace (some override) base = some override
replace none base = base

-- `_deep_merge` of whole documents
unfoldable pub merge_data : WorkflowData → WorkflowData → WorkflowData
merge_data override base = record {
  name = replace override.name base.name;
  version = replace override.version base.version;
  description = replace override.description base.description;
  nodes = replace override.nodes base.nodes;
  edges = replace override.edges base.edges;
  settings = merge_fields override.settings base.settings;
  tools = replace override.tools base.tools;
  error_handling = replace override.error_handling base.error_handling;
  metrics = replace override.metrics base.metrics;
  feature_flags = merge_fields override.feature_flags base.feature_flags;
  quotas = merge_fields override.quotas base.quotas;
  security = merge_fields override.security base.security;
  monitoring = merge_fields override.monitoring base.monitoring;
}

unfoldable pub spec_to_dict : WorkflowSpec → WorkflowData
spec_to_dict base = record {
  name = some base.name;
  version = some base.version;
  description = some base.description;
  nodes = some (map step_to_dict base.steps);
  edges = some (map transition_to_dict base.transitions);
  settings = some base.settings;
  tools = some base.tools;
  error_handling = some base.error_handling;
  metrics = some base.metrics;
  feature_flags = truthy base.feature_flags;
  quotas = truthy base.quotas;
  security = truthy base.security;
  monitoring = truthy base.monitoring;
}

-- `base_dict[key].extend(override[key])`
abbrev pub extend {ℓ} : {A : Type ℓ} → Option (List A) → Option (List A) → Option (List A)
extend none ys = none
extend (some xs) ys = some (xs ++ or ys [])

abbrev pub with_graph : WorkflowData → Option (List Node) → Option (List EdgeData) → WorkflowData
with_graph d nodes edges = record d { nodes = nodes; edges = edges }

unfoldable pub merge_specs : WorkflowSpec → WorkflowData → Result LoadError WorkflowSpec
merge_specs base override =
    let d = spec_to_dict base in
    parse_workflow_data (
      merge_data (with_graph override none none)
        (with_graph d (extend d.nodes override.nodes) (extend d.edges override.edges)))

-- what `_merge_specs` is given as its override: a document, or the WorkflowSpec of another file
pub data Override : Type 0 where
  mapping : WorkflowData → Override
  specification : WorkflowSpec → Override

-- `key in override`, which raises for an object that is no container
abbrev pub has_key : (WorkflowData → Bool) → Override → Result LoadError Bool
has_key has (mapping d) = ok (has d)
has_key has (specification spec) = err type_error

-- `override.items()`
abbrev pub items : Override → Result LoadError WorkflowData
items (mapping d) = ok d
items (specification spec) = err attribute_error

-- `_merge_specs` with the tests that it makes on its override
unfoldable pub merge_override : WorkflowSpec → Override → Result LoadError WorkflowSpec
merge_override base override = bind (has_key (λ d. is_some d.nodes) override) (λ has_nodes.
    bind (has_key (λ d. is_some d.edges) override)
      (λ has_edges. bind (items override) (λ d. merge_specs base d)))
