-- ===== src/Workflows/WorkflowLoader/Loading.antt =====
-- How libs/workflows/workflow_loader.py loads a workflow, from data or by its name. What the YAML
-- files hold is a parameter.
pub mod Insertion
pub mod Reading
pub mod Reload
pub mod Cache
use multi_ai_agent.Prelude.{
  ℕ, zero, suc, ◌+◌, Bool, true, false, Option, none, some, List, [], ◌∷◌, ◌++◌, String, str_eq,
  if◌then◌else◌, Result, ok, err, get_elem?, set,
}
use Prim.Native.String.{◌++◌ as ◌++ₛ◌}
use multi_ai_agent.Prelude.Dict.{Dict, get, put}
use multi_ai_agent.Workflows.WorkflowLoader.{WorkflowSpec, Invalid, validate_spec}
use multi_ai_agent.Workflows.WorkflowLoader.Document.{
  Node, EdgeData, WorkflowData, LoadError, key_error, value_error, type_error, or, bind,
  parse_workflow_data, merge_fields, replace, merge_data, merge_specs, with_graph,
}

-- the lists of nodes and edges, which are changed in place
pub record Lists : Type 0 where
  pub nodes : List Node
  pub edges : List EdgeData

abbrev pub Changed : Type 0
Changed = Lists × Result LoadError (Unit {0})

abbrev pub and_change : Changed → (Lists → Changed) → Changed
and_change (l, ok u) k = k l
and_change (l, err e) k = (l, err e)

-- `list.insert(i, node)`
abbrev pub insert_at : ℕ → Node → List Node → List Node
insert_at zero n nodes = n ∷ nodes
insert_at (suc i) n [] = n ∷ []
insert_at (suc i) n (m ∷ nodes) = m ∷ insert_at i n nodes

-- the first node with the id; `node["id"]` raises for a node without one
unfoldable pub find_index : String → List Node → Result LoadError (Option ℕ)
find_index id [] = ok none
find_index id (n ∷ nodes) =
    let rest = find_index id nodes in
    elim n.id [
      | none ↦ err (key_error "id")
      | some j ↦
          if str_eq j id
          then ok (some 0)
          else bind rest (λ i. ok (elim i [ none ↦ none | some i ↦ some (suc i) ]))
    ]

abbrev pub edge_to : String → String → EdgeData
edge_to from to = record { from = some from; to = some to; condition = none; metadata = none }

-- the edge from the new node to the next node, if there is one
abbrev pub link_next : String → Option Node → Lists → Changed
link_next id none l = (l, ok tt)
link_next id (some next) l = elim next.id [
  | none ↦ (l, err (key_error "id"))
  | some to ↦ (record l { edges = l.edges ++ edge_to id to ∷ [] }, ok tt)
]

-- a new node at index `i`
unfoldable pub insert_node : String → ℕ → Node → Lists → Changed
insert_node target i n l =
    let nodes = insert_at i n l.nodes in
    elim n.id [
      | none ↦ (record l { nodes = nodes }, err (key_error "id"))
      | some id ↦
          link_next id (get_elem? nodes (suc i))
            (record { nodes = nodes; edges = l.edges ++ edge_to target id ∷ [] })
    ]

unfoldable pub insert_nodes : String → ℕ → List Node → Lists → Changed
insert_nodes target i [] l = (l, ok tt)
insert_nodes target i (n ∷ new) l =
    and_change (insert_node target i n l) (λ m. insert_nodes target (suc i) new m)

abbrev pub insert_found : String → Result LoadError (Option ℕ) → List Node → Lists → Changed
insert_found target (ok none) new l = (l, ok tt)
insert_found target (ok (some i)) new l = insert_nodes target (suc i) new l
insert_found target (err e) new l = (l, err e)

unfoldable pub apply_insert_after : Dict (List Node) → Lists → Changed
apply_insert_after [] l = (l, ok tt)
apply_insert_after ((target, new) ∷ rest) l =
    and_change (insert_found target (find_index target l.nodes) new l)
      (λ m. apply_insert_after rest m)

abbrev pub merge_node : Node → Node → Node
merge_node override base = record {
  id = replace override.id base.id;
  type = replace override.type base.type;
  name = replace override.name base.name;
  config = merge_fields override.config base.config;
  metadata = merge_fields override.metadata base.metadata;
}

abbrev pub patch_at : Node → ℕ → List Node → List Node
patch_at patch i nodes = elim (get_elem? nodes i) [
  | none ↦ nodes
  | some n ↦ set nodes i (merge_node patch n)
]

abbrev pub patch_found : Node → Result LoadError (Option ℕ) → Lists → Changed
patch_found patch (ok none) l = (l, ok tt)
patch_found patch (ok (some i)) l = (record l { nodes = patch_at patch i l.nodes }, ok tt)
patch_found patch (err e) l = (l, err e)

unfoldable pub patch_nodes : Dict Node → Lists → Changed
patch_nodes [] l = (l, ok tt)
patch_nodes ((id, patch) ∷ rest) l =
    and_change (patch_found patch (find_index id l.nodes) l) (λ m. patch_nodes rest m)

pub record Patch : Type 0 where
  pub nodes : Option (Dict Node)
  pub others : WorkflowData

pub record Document : Type 0 where
  pub body : WorkflowData
  pub extends : Option String
  pub insert_after : Option (Dict (List Node))
  pub patch : Option Patch

abbrev pub lists : WorkflowData → Lists
lists d = record { nodes = or d.nodes []; edges = or d.edges [] }

-- The list of the caller's document is the changed one, where it has one.
abbrev pub share {ℓ} : {A : Type ℓ} → Option A → A → Option A
share none a = none
share (some b) a = some a

abbrev pub shared : WorkflowData → Lists → WorkflowData
shared d l = with_graph d (share d.nodes l.nodes) (share d.edges l.edges)

-- The document of the caller and the document at hand.
abbrev pub Step : Type 0
Step = WorkflowData × Result LoadError WorkflowData

abbrev pub finish_insert : WorkflowData → Changed → Step
finish_insert d (l, ok u) = (shared d l, ok (with_graph d (some l.nodes) (some l.edges)))
finish_insert d (l, err e) = (shared d l, err e)

abbrev pub do_insert : Option (Dict (List Node)) → WorkflowData → Step
do_insert none d = (d, ok d)
do_insert (some insert_after) d = finish_insert d (apply_insert_after insert_after (lists d))

abbrev pub finish_patch : WorkflowData → WorkflowData → WorkflowData → Changed → Step
finish_patch caller d others (l, ok u) = (
  with_graph caller (share caller.nodes l.nodes) caller.edges,
  ok (merge_data (with_graph others none others.edges) (with_graph d (some l.nodes) d.edges)),
)
finish_patch caller d others (l, err e) =
    (with_graph caller (share caller.nodes l.nodes) caller.edges, err e)

abbrev pub do_patch : Option Patch → WorkflowData → WorkflowData → Step
do_patch none caller d = (caller, ok d)
do_patch (some p) caller d = elim p.nodes [
  | none ↦ (caller, ok (merge_data (with_graph p.others none p.others.edges) d))
  | some patches ↦ finish_patch caller d p.others (patch_nodes patches (lists d))
]

abbrev pub then_patch : Option Patch → Step → Step
then_patch p (caller, ok d) = do_patch p caller d
then_patch p (caller, err e) = (caller, err e)

abbrev pub checked : WorkflowSpec → Result Invalid (Unit {0}) → Result LoadError WorkflowSpec
checked spec (ok u) = ok spec
checked spec (err e) = err (value_error e)

unfoldable pub parse_and_validate : Step → WorkflowData × Result LoadError WorkflowSpec
parse_and_validate (caller, r) =
    (caller, bind r (λ d. bind (parse_workflow_data d) (λ spec. checked spec (validate_spec spec))))

-- the caller's document after the call, and the result
unfoldable pub load_workflow_from_data :
    (String → Result LoadError WorkflowSpec) → Document → Document × Result LoadError WorkflowSpec
load_workflow_from_data load_base doc = elim doc.extends [
  | some name ↦ (doc, bind (load_base name) (λ base. merge_specs base doc.body))
  | none ↦
      let (caller, result) =
        parse_and_validate (then_patch doc.patch (do_insert doc.insert_after doc.body)) in
      (record doc { body = caller }, result)
]
