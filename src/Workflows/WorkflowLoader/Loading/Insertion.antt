-- ===== src/Workflows/WorkflowLoader/Loading/Insertion.antt =====
-- What `_apply_insert_after` of libs/workflows/workflow_loader.py does to the nodes and the edges.
use multi_ai_agent.Prelude.{
  suc, ◌≡◌, refl, sym, ap, ◌∙◌, false, Option, none, some, List, [], ◌∷◌, ◌++◌, String, str_eq,
  eq_refl, ok, get_elem?, length, length-append, arith, All,
}
use mathlib.Core.List.{append_assoc, append-nil}
use multi_ai_agent.Workflows.WorkflowLoader.Document.{Node, EdgeData}
use multi_ai_agent.Workflows.WorkflowLoader.Loading.{
  Lists, insert_at, find_index, edge_to, link_next, insert_node, insert_nodes, apply_insert_after,
}

abbrev pub HasId : Node → Type 0
HasId n = (id : String) × (n.id ≡ some id)

abbrev pub head? : List Node → Option Node
head? [] = none
head? (n ∷ nodes) = some n

length-snoc : (front : List Node) (n : Node) → length (front ++ n ∷ []) ≡ suc (length front)
length-snoc front n = omega (arith, length-append front (n ∷ []))

insert_at-length :
    (front : List Node) (n : Node) (after : List Node)
    → insert_at (length front) n (front ++ after) ≡ front ++ n ∷ after
insert_at-length [] n [] = refl
insert_at-length [] n (m ∷ after) = refl
insert_at-length (m ∷ front) n after = ap (λ l. m ∷ l) (insert_at-length front n after)

get_elem?-after :
    (front : List Node) (n : Node) (after : List Node)
    → get_elem? (front ++ n ∷ after) (suc (length front)) ≡ head? after
get_elem?-after [] n [] = refl
get_elem?-after [] n (m ∷ after) = refl
get_elem?-after (m ∷ front) n after = get_elem?-after front n after

-- the edge to the node that comes next
abbrev pub next_edge : String → Option Node → List EdgeData
next_edge id none = []
next_edge id (some m) = elim m.id [ none ↦ [] | some to ↦ edge_to id to ∷ [] ]

-- the edges for one new node
abbrev pub edges_of : String → Option Node → Node → List EdgeData
edges_of target next n = elim n.id [ none ↦ [] | some id ↦ edge_to target id ∷ next_edge id next ]

-- From the target to each new node, and from each to the node that followed the target.
abbrev pub new_edges : String → Option Node → List Node → List EdgeData
new_edges target next [] = []
new_edges target next (n ∷ new) = edges_of target next n ++ new_edges target next new

abbrev pub NextHasId : Option Node → Type 0
NextHasId none = Unit
NextHasId (some n) = HasId n

link_next_result :
    (id : String) (next : Option Node) (l : Lists)
    → NextHasId next
    → link_next id next l ≡ (record l { edges = l.edges ++ next_edge id next }, ok tt)
link_next_result id none l h =
    ap (λ (e : List EdgeData). (record l { edges = e }, ok tt)) (sym (append-nil l.edges))
link_next_result id (some m) l (to, e) = rw e refl

edges_of-id :
    (target id : String) (next : Option Node) (n : Node)
    → n.id ≡ some id
    → edges_of target next n ≡ edge_to target id ∷ next_edge id next
edges_of-id target id next n e = rw e refl

insert_node_result :
    (target : String) (front after : List Node) (n : Node) (edges : List EdgeData)
    → HasId n
    → NextHasId (head? after)
    → insert_node target (length front) n (record { nodes = front ++ after; edges = edges }) ≡ (
      record { nodes = front ++ n ∷ after; edges = edges ++ edges_of target (head? after) n },
      ok tt,
    )
unfolding insert_node
insert_node_result target front after n edges (id, e) h =
    let inserted = front ++ n ∷ after in
    simp (insert_node, e, insert_at-length, get_elem?-after)
      (link_next_result id (head? after)
          (record { nodes = inserted; edges = edges ++ edge_to target id ∷ [] }) h
        ∙ ap (λ (es : List EdgeData). (record { nodes = inserted; edges = es }, ok tt))
            (append_assoc edges (edge_to target id ∷ []) (next_edge id (head? after))
              ∙ ap (λ (es : List EdgeData). edges ++ es)
                  (sym (edges_of-id target id (head? after) n e))))

insert_nodes_result :
    (target : String) (front after new : List Node) (edges : List EdgeData)
    → All HasId new
    → NextHasId (head? after)
    → insert_nodes target (length front) new (record { nodes = front ++ after; edges = edges }) ≡ (
      record {
        nodes = front ++ (new ++ after);
        edges = edges ++ new_edges target (head? after) new;
      },
      ok tt,
    )
unfolding insert_nodes
insert_nodes_result target front after [] edges ids h =
    ap (λ (e : List EdgeData). (record { nodes = front ++ after; edges = e }, ok tt))
      (sym (append-nil edges))
insert_nodes_result target front after (n ∷ new) edges (id, ids) h =
    let rest =
      insert_nodes_result target (front ++ n ∷ []) after new
        (edges ++ edges_of target (head? after) n) ids h in
    rw (insert_node_result target front after n edges id h)
      (rw (append_assoc, append_assoc, append_assoc, length-snoc) at rest)

-- another id
abbrev pub Differs : String → Node → Type 0
Differs target n = (id : String) × (n.id ≡ some id) × (str_eq id target ≡ false)

find_index_result :
    (target : String) (before : List Node) (t : Node) (after : List Node)
    → All (Differs target) before
    → t.id ≡ some target
    → find_index target (before ++ t ∷ after) ≡ ok (some (length before))
unfolding find_index
find_index_result target [] t after d e = rw (e, eq_refl target) refl
find_index_result target (n ∷ before) t after ((id, p, d), ds) e =
    rw (p, d, find_index_result target before t after ds e) refl

-- The new nodes stand behind the first node with the id of the target. New edges, behind the others,
-- lead from the target to each new node, and from each to the node that followed the target. All
-- the nodes up to the target, the new ones and the following one have an id.
pub apply_insert_after_result :
    (target : String) (before : List Node) (t : Node) (after new : List Node)
    (edges : List EdgeData)
    → All (Differs target) before
    → t.id ≡ some target
    → All HasId new
    → NextHasId (head? after)
    → apply_insert_after
        ((target, new) ∷ [])
        (record { nodes = before ++ t ∷ after; edges = edges })
      ≡ (
        record {
          nodes = before ++ t ∷ (new ++ after);
          edges = edges ++ new_edges target (head? after) new;
        },
        ok tt,
      )
unfolding apply_insert_after
apply_insert_after_result target before t after new edges d e ids h =
    let inserted = insert_nodes_result target (before ++ t ∷ []) after new edges ids h in
    rw
      (
        find_index_result target before t after d e,
        (rw (append_assoc, append_assoc, length-snoc) at inserted),
      )
      refl
