-- ===== src/Workflows/WorkflowLoader/Loading/Reload.antt =====
-- The loading of libs/workflows/workflow_loader.py changes the lists of the document that it is given.
use mathlib.Core.List.{append_assoc}
use multi_ai_agent.Prelude.{
  ◌≡◌, refl, Option, none, some, List, [], ◌∷◌, ◌++◌, String, Result, ok, err, All, map-append,
}
use multi_ai_agent.Prelude.Strings.{IsUnique, IsUnique-again}
use multi_ai_agent.Workflows.WorkflowLoader.{
  WorkflowStep, WorkflowTransition, WorkflowSpec, step_ids, duplicate_ids,
}
use multi_ai_agent.Workflows.WorkflowLoader.Document.{
  Node, EdgeData, WorkflowData, LoadError, with_graph, value_error, or, parse_node, parse_edge,
}
use multi_ai_agent.Workflows.WorkflowLoader.Loading.{
  Document, share, parse_and_validate, load_workflow_from_data,
}
use multi_ai_agent.Workflows.WorkflowLoader.Loading.Insertion.{
  HasId, head?, NextHasId, new_edges, Differs, apply_insert_after_result,
}
use multi_ai_agent.Workflows.WorkflowLoader.Loading.Reading.{
  Reads, Reads-join, Reads-split, new_edges-Reads, load_lists, load_lists-ok, load_lists-duplicates,
}

-- a document of which `new` is inserted behind a target
abbrev pub inserting :
    WorkflowData → List Node → Option (List EdgeData) → String → List Node → Document
inserting d nodes edges target new = record {
  body = with_graph d (some nodes) edges;
  extends = none;
  insert_after = some ((target, new) ∷ []);
  patch = none;
}

module _ (load_base : String → Result LoadError WorkflowSpec) (d : WorkflowData) where
  load-inserting :
      (edges : Option (List EdgeData)) (target : String) (before : List Node) (t : Node)
      (after new : List Node)
      → All (Differs target) before
      → t.id ≡ some target
      → All HasId new
      → NextHasId (head? after)
      → let nodes = before ++ t ∷ (new ++ after) in
        let all_edges = or edges [] ++ new_edges target (head? after) new in
        load_workflow_from_data load_base (inserting d (before ++ t ∷ after) edges target new)
        ≡ (inserting d nodes (share edges all_edges) target new, load_lists d nodes all_edges)
  unfolding load_workflow_from_data parse_and_validate
  load-inserting edges target before t after new before_ids e ids next =
      rw (apply_insert_after_result target before t after new (or edges []) before_ids e ids next)
        refl

-- the new nodes once more
nodes_again :
    (front : List Node) (n : Node) (new after : List Node) (steps : List WorkflowStep)
    → Reads parse_node (front ++ (n ∷ new ++ after)) steps
    → (twice : List WorkflowStep) × Reads parse_node
        (front ++ (n ∷ new ++ (n ∷ new ++ after)))
        twice
      × (¬ IsUnique (step_ids twice))
nodes_again front n new after steps h =
    let (sf, rest, p, q, _) = Reads-split parse_node front (n ∷ new ++ after) steps h in
    let (sn, sa, r, u, _) = Reads-split parse_node (n ∷ new) after rest q in twice sf sn sa p r u
  where
    twice :
        (sf sn sa : List WorkflowStep)
        → Reads parse_node front sf
        → Reads parse_node (n ∷ new) sn
        → Reads parse_node after sa
        → (twice : List WorkflowStep) × Reads parse_node
            (front ++ (n ∷ new ++ (n ∷ new ++ after)))
            twice
          × (¬ IsUnique (step_ids twice))
    twice sf [] sa p r u = absurd r
    twice sf (s ∷ sn) sa p r u = (
      sf ++ (s ∷ sn ++ (s ∷ sn ++ sa)),
      Reads-join parse_node front (n ∷ new ++ (n ∷ new ++ after)) sf (s ∷ sn ++ (s ∷ sn ++ sa)) p (
          Reads-join parse_node (n ∷ new) (n ∷ new ++ after) (s ∷ sn) (s ∷ sn ++ sa) r
            (Reads-join parse_node (n ∷ new) after (s ∷ sn) sa r u)),
      λ h.
          IsUnique-again (step_ids sf) s.id (step_ids sn) (step_ids (sn ++ sa))
            (rw (map-append, map-append) at h),
    )

edges_again :
    (edges : Option (List EdgeData)) (first : List EdgeData) (target : String) (next : Option Node)
    (new : List Node) (transitions : List WorkflowTransition)
    → Reads parse_edge first transitions
    → (ts : List WorkflowTransition) × Reads parse_edge
        (or (share edges first) [] ++ new_edges target next new)
        ts
edges_again none first target next new transitions h = new_edges-Reads target next new
edges_again (some es) first target next new transitions h =
    let (ts, p) = new_edges-Reads target next new in
    (transitions ++ ts, Reads-join parse_edge first (new_edges target next new) transitions ts h p)

-- A document that extends nothing and patches nothing, with one insertion of one node or more behind a
-- target that is there, raises for duplicate ids when it is loaded again after it has loaded once: the
-- caller's document keeps the inserted nodes. All the nodes up to the target, the new ones and the
-- following one have an id.
pub reload_raises :
    (load_base : String → Result LoadError WorkflowSpec) (d : WorkflowData)
    (edges : Option (List EdgeData)) (target : String) (before : List Node) (t : Node)
    (after : List Node) (n : Node) (new : List Node) (spec : WorkflowSpec)
    → All (Differs target) before
    → t.id ≡ some target
    → All HasId (n ∷ new)
    → NextHasId (head? after)
    → (load_workflow_from_data load_base
        (inserting d (before ++ t ∷ after) edges target (n ∷ new))).1
      ≡ ok spec
    → let document =
        (load_workflow_from_data load_base
          (inserting d (before ++ t ∷ after) edges target (n ∷ new))).0 in
      (load_workflow_from_data load_base document).1 ≡ err (value_error duplicate_ids)
reload_raises load_base d edges target before t after n new spec before_ids e ids next loads =
    let nodes = before ++ t ∷ (n ∷ new ++ after) in
    let new_ones = new_edges target (head? after) (n ∷ new) in
    let all_edges = or edges [] ++ new_ones in
    let first =
      load-inserting load_base d edges target before t after (n ∷ new) before_ids e ids next in
    let kept = share edges all_edges in
    let second =
      load-inserting load_base d kept target before t (n ∷ new ++ after) (n ∷ new) before_ids e ids
        ids.0 in
    let (steps, transitions, p, q, named) =
      load_lists-ok d nodes all_edges spec (rw first at loads) in
    let (twice, r, doubled) =
      nodes_again (before ++ t ∷ []) n new after steps (rw append_assoc p) in
    let (ts, u) = edges_again edges all_edges target (some n) (n ∷ new) transitions q in
    rw (first, second)
      (load_lists-duplicates d (before ++ t ∷ (n ∷ new ++ (n ∷ new ++ after)))
        (or kept [] ++ new_edges target (some n) (n ∷ new)) twice ts (rw append_assoc at r) u named
        doubled)
