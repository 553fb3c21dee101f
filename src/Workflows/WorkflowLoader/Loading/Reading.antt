-- ===== src/Workflows/WorkflowLoader/Loading/Reading.antt =====
-- What the parsing of libs/workflows/workflow_loader.py reads, item by item.
use multi_ai_agent.Prelude.{
  ◌≡◌, refl, ap, ◌∙◌, false, Option, none, some, List, [], ◌∷◌, ◌++◌, String, Result, ok, err,
  length, arith, Option-cases, inl, inr, ==_iff,
}
use multi_ai_agent.Prelude.Strings.{IsUnique, length-distinct, distinct}
use multi_ai_agent.Workflows.Json.{no_fields}
use multi_ai_agent.Workflows.WorkflowLoader.{
  WorkflowStep, WorkflowTransition, WorkflowSpec, Invalid, is_blank, step_ids, validate_spec,
  duplicate_ids,
}
use multi_ai_agent.Workflows.WorkflowLoader.Validation.{validate_spec_correct}
use multi_ai_agent.Workflows.WorkflowLoader.Document.{
  Node, EdgeData, WorkflowData, LoadError, with_graph, value_error, or, bind, parse_node,
  parse_edge, traverse, parse_workflow_data,
}
use multi_ai_agent.Workflows.WorkflowLoader.Loading.{checked, edge_to}
use multi_ai_agent.Workflows.WorkflowLoader.Loading.Insertion.{new_edges, next_edge, edges_of}

pub bind_ok :
    {B C : Type 0} (r : Result LoadError B) (k : B → Result LoadError C) (c : C)
    → bind r k ≡ ok c
    → (b : B) × (r ≡ ok b) × (k b ≡ ok c)
bind_ok (ok b) k c e = (b, refl, e)
bind_ok (err x) k c e = cc

module _ {A B : Type 0} (f : A → Result LoadError B) where
  -- the results of the items, one by one
  abbrev pub Reads : List A → List B → Type 0
  Reads [] [] = Unit
  Reads (x ∷ xs) (b ∷ bs) = (f x ≡ ok b) × Reads xs bs
  Reads _ _ = ⊥

  pub traverse-Reads : (xs : List A) (bs : List B) → traverse f xs ≡ ok bs → Reads xs bs
  unfolding traverse
  traverse-Reads [] [] e = tt
  traverse-Reads [] (b ∷ bs) e = cc
  traverse-Reads (x ∷ xs) cs e =
      let (b, p, q) = bind_ok (f x) (λ b. bind (traverse f xs) (λ bs. ok (b ∷ bs))) cs e in
      let (bs, r, s) = bind_ok (traverse f xs) (λ bs. ok (b ∷ bs)) cs q in
      let same : b ∷ bs ≡ cs = cc s in rw (← same) (p, traverse-Reads xs bs r)

  pub Reads-traverse : (xs : List A) (bs : List B) → Reads xs bs → traverse f xs ≡ ok bs
  unfolding traverse
  Reads-traverse [] [] h = refl
  Reads-traverse (x ∷ xs) (b ∷ bs) h = rw (h.0, Reads-traverse xs bs h.1) refl
  Reads-traverse [] (b ∷ bs) h = absurd h
  Reads-traverse (x ∷ xs) [] h = absurd h

  pub Reads-join :
      (xs ys : List A) (bs cs : List B) → Reads xs bs → Reads ys cs → Reads (xs ++ ys) (bs ++ cs)
  Reads-join [] ys [] cs h k = k
  Reads-join (x ∷ xs) ys (b ∷ bs) cs h k = (h.0, Reads-join xs ys bs cs h.1 k)
  Reads-join [] ys (b ∷ bs) cs h k = absurd h
  Reads-join (x ∷ xs) ys [] cs h k = absurd h

  pub Reads-split :
      (xs ys : List A) (cs : List B)
      → Reads (xs ++ ys) cs
      → (bs : List B) × (ds : List B) × Reads xs bs × Reads ys ds × (cs ≡ bs ++ ds)
  Reads-split [] ys cs h = ([], cs, tt, h, refl)
  Reads-split (x ∷ xs) ys [] h = absurd h
  Reads-split (x ∷ xs) ys (c ∷ cs) h =
      let (bs, ds, p, q, e) = Reads-split xs ys cs h.1 in
      (c ∷ bs, ds, (h.0, p), q, ap (λ l. c ∷ l) e)

pub validate_spec-duplicates :
    (spec : WorkflowSpec)
    → is_blank spec.name ≡ false
    → ¬ IsUnique (step_ids spec.steps)
    → validate_spec spec ≡ err duplicate_ids
unfolding validate_spec
validate_spec-duplicates spec named twice = ground (
  arith,
  length-distinct (step_ids spec.steps),
  ==_iff (length (step_ids spec.steps)) (length (distinct (step_ids spec.steps))),
)

abbrev default_transition : String → String → WorkflowTransition
default_transition from to = record {
  from_step = from;
  to_step = to;
  condition = "true";
  metadata = none;
}

edge_to-Reads : (from to : String) → parse_edge (edge_to from to) ≡ ok (default_transition from to)
unfolding parse_edge
edge_to-Reads from to = refl

pub next_edge-Reads :
    (id : String) (next : Option Node)
    → (ts : List WorkflowTransition) × Reads parse_edge (next_edge id next) ts
next_edge-Reads id none = ([], tt)
next_edge-Reads id (some m) = elim (Option-cases m.id) [
  | inl e ↦ rw e ([], tt)
  | inr (to, e) ↦ rw e (default_transition id to ∷ [], (edge_to-Reads id to, tt))
]

edges_of-Reads :
    (target : String) (next : Option Node) (n : Node)
    → (ts : List WorkflowTransition) × Reads parse_edge (edges_of target next n) ts
edges_of-Reads target next n = elim (Option-cases n.id) [
  | inl e ↦ rw e ([], tt)
  | inr (id, e) ↦ rw e (
      let (ts, p) = next_edge-Reads id next in
      (default_transition target id ∷ ts, (edge_to-Reads target id, p)))
]

-- the new edges are read
pub new_edges-Reads :
    (target : String) (next : Option Node) (new : List Node)
    → (ts : List WorkflowTransition) × Reads parse_edge (new_edges target next new) ts
unfolding parse_edge
new_edges-Reads target next [] = ([], tt)
new_edges-Reads target next (n ∷ new) =
    let (ts, p) = edges_of-Reads target next n in
    let (us, q) = new_edges-Reads target next new in
    (ts ++ us, Reads-join parse_edge (edges_of target next n) (new_edges target next new) ts us p q)

-- the specification of a document with these steps and transitions
abbrev parsed : WorkflowData → List WorkflowStep → List WorkflowTransition → WorkflowSpec
parsed d steps transitions = record {
  name = or d.name "";
  version = or d.version "1.0.0";
  description = or d.description "";
  settings = or d.settings no_fields;
  steps = steps;
  transitions = transitions;
  tools = or d.tools [];
  error_handling = or d.error_handling [];
  metrics = or d.metrics [];
  feature_flags = d.feature_flags;
  quotas = d.quotas;
  security = d.security;
  monitoring = d.monitoring;
}

pub checked_ok :
    (s spec : WorkflowSpec) (r : Result Invalid (Unit {0})) → checked s r ≡ ok spec → r ≡ ok tt
checked_ok s spec (ok u) e = refl
checked_ok s spec (err x) e = cc

module _ (d : WorkflowData) (nodes : List Node) (edges : List EdgeData) where
  abbrev pub load_lists : Result LoadError WorkflowSpec
  load_lists =
      bind (parse_workflow_data (with_graph d (some nodes) (some edges)))
        (λ spec. checked spec (validate_spec spec))

  pub load_lists-duplicates :
      (steps : List WorkflowStep) (transitions : List WorkflowTransition)
      → Reads parse_node nodes steps
      → Reads parse_edge edges transitions
      → is_blank (or d.name "") ≡ false
      → ¬ IsUnique (step_ids steps)
      → load_lists ≡ err (value_error duplicate_ids)
  unfolding parse_workflow_data
  load_lists-duplicates steps transitions p q named twice =
      rw
        (
          Reads-traverse parse_node nodes steps p,
          Reads-traverse parse_edge edges transitions q,
          validate_spec-duplicates (parsed d steps transitions) named twice,
        )
        refl

  pub load_lists-ok :
      (spec : WorkflowSpec)
      → load_lists ≡ ok spec
      → (steps : List WorkflowStep) × (transitions : List WorkflowTransition) × Reads parse_node
          nodes steps
        × Reads parse_edge edges transitions
        × (is_blank (or d.name "") ≡ false)
  unfolding parse_workflow_data
  load_lists-ok spec e =
      let (s, p, q) =
        bind_ok (parse_workflow_data (with_graph d (some nodes) (some edges)))
          (λ spec. checked spec (validate_spec spec)) spec e in
      let (steps, p1, rest) =
        bind_ok (traverse parse_node nodes)
          (λ steps. bind (traverse parse_edge edges) (λ ts. ok (parsed d steps ts))) s p in
      let (ts, p2, last) =
        bind_ok (traverse parse_edge edges) (λ ts. ok (parsed d steps ts)) s rest in
      let same : parsed d steps ts ≡ s = cc last in
      let valid = (validate_spec_correct s).0 (checked_ok s spec (validate_spec s) q) in
      (
        steps,
        ts,
        traverse-Reads parse_node nodes steps p1,
        traverse-Reads parse_edge edges ts p2,
        ap (λ (s : WorkflowSpec). is_blank s.name) same ∙ valid.named,
      )
