-- ===== src/Workflows/WorkflowLoader/Edges.antt =====
-- The adjacency lists that `_check_circular_dependencies` builds are the transitions of the workflow.
use multi_ai_agent.Prelude.{
  ◌≡◌, refl, Bool, true, false, ◌&&◌, ◌||◌, some, List, [], ◌∷◌, ◌++◌, map, String, str_eq, eq_iff,
  eq_refl, arith, inl, inr, Bool-cases, Option-cases, is_some, if◌then◌else◌,
}
use mathlib.Core.List.{Memᴰ}
use mathlib.Core.List.Memᴰ
use multi_ai_agent.Prelude.Dict.{get, put, get-put}
use multi_ai_agent.Prelude.Strings.{contains, contains-append}
use multi_ai_agent.Workflows.WorkflowLoader.{
  WorkflowStep, WorkflowTransition, WorkflowSpec, step_ids, empty_graph, add_edge, add_edges,
  build_graph, node_names,
}
use multi_ai_agent.Workflows.WorkflowLoader.Cycle.{Graph, neighbors}
use multi_ai_agent.Workflows.WorkflowLoader.Cycle.Invariant.{Edge, Walk, last, step}

-- some transition goes from `u` to `v`
unfoldable links : String → String → List WorkflowTransition → Bool
links u v [] = false
links u v (t ∷ transitions) = (str_eq t.from_step u && str_eq t.to_step v) || links u v transitions

has : String → Graph → Bool
has u graph = is_some (get u graph)

get-empty_graph :
    (steps : List WorkflowStep) (graph : Graph) (u : String)
    → get u (empty_graph steps graph)
      ≡ (if contains u (step_ids steps) then some [] else get u graph)
unfolding empty_graph contains
get-empty_graph [] graph u = refl
get-empty_graph (s ∷ steps) graph u =
    ground (arith, get-empty_graph steps (put s.id [] graph) u, get-put s.id u [] graph)

has-add_edge :
    (t : WorkflowTransition) (graph : Graph) (u : String)
    → has u (add_edge t (get t.from_step graph) graph) ≡ has u graph
unfolding has
has-add_edge t graph u = elim (Option-cases (get t.from_step graph)) [
  | inl e ↦ rw e refl
  | inr (nodes, e) ↦
      rw e (
        ground (arith, get-put t.from_step u (nodes ++ t.to_step ∷ []) graph, eq_iff t.from_step u))
]

neighbors-add_edge :
    (t : WorkflowTransition) (graph : Graph) (u v : String)
    → contains v (neighbors (add_edge t (get t.from_step graph) graph) u) ≡ (
        contains v (neighbors graph u) || has u graph && str_eq t.from_step u && str_eq t.to_step v)
unfolding neighbors has contains
neighbors-add_edge t graph u v = elim (Option-cases (get t.from_step graph)) [
  | inl e ↦ rw e (ground (arith, eq_iff t.from_step u))
  | inr (nodes, e) ↦ rw e (
      ground (
        arith,
        get-put t.from_step u (nodes ++ t.to_step ∷ []) graph,
        eq_iff t.from_step u,
        contains-append v nodes (t.to_step ∷ []),
      ))
]

neighbors-add_edges :
    (transitions : List WorkflowTransition) (graph : Graph) (u v : String)
    → contains v (neighbors (add_edges transitions graph) u)
      ≡ (contains v (neighbors graph u) || has u graph && links u v transitions)
unfolding add_edges links
neighbors-add_edges [] graph u v = ground arith
neighbors-add_edges (t ∷ transitions) graph u v = ground (
  arith,
  neighbors-add_edges transitions (add_edge t (get t.from_step graph) graph) u v,
  neighbors-add_edge t graph u v,
  has-add_edge t graph u,
)

-- An edge of the graph is a transition that starts at a step.
no_neighbors : (u : String) → neighbors [] u ≡ []
unfolding neighbors get
no_neighbors u = refl

edge_graph :
    (spec : WorkflowSpec) (u v : String)
    → contains v (neighbors (build_graph spec) u)
      ≡ (contains u (step_ids spec.steps) && links u v spec.transitions)
unfolding build_graph neighbors has contains get
edge_graph spec u v = ground (
  arith,
  neighbors-add_edges spec.transitions (empty_graph spec.steps []) u v,
  get-empty_graph spec.steps [] u,
  no_neighbors u,
)

-- a transition from `u` to `v`
abbrev pub Goes : List WorkflowTransition → String → String → Type 0
Goes transitions u v =
    (t : WorkflowTransition) × Memᴰ t transitions × (t.from_step ≡ u) × (t.to_step ≡ v)

Goes-links :
    (transitions : List WorkflowTransition) (u v : String)
    → Goes transitions u v
    → links u v transitions ≡ true
unfolding links
Goes-links [] u v (t, m, p, q) = absurd (Memᴰ.not-nil m)
Goes-links (t' ∷ transitions) u v (t, Memᴰ.head p, from, to) =
    rw (← p, from, to, eq_refl u, eq_refl v) refl
Goes-links (t' ∷ transitions) u v (t, Memᴰ.tail m, ends_from, ends_to) =
    ground (arith, Goes-links transitions u v (t, m, ends_from, ends_to))

links-Goes :
    (transitions : List WorkflowTransition) (u v : String)
    → links u v transitions ≡ true
    → Goes transitions u v
unfolding links
links-Goes [] u v h = cc
links-Goes (t ∷ transitions) u v h =
    elim (Bool-cases (str_eq t.from_step u && str_eq t.to_step v)) [
      | inl here ↦ (
        t,
        Memᴰ.head refl,
        (eq_iff t.from_step u).0 (ground arith),
        (eq_iff t.to_step v).0 (ground arith),
      )
      | inr e ↦
          (let (t', m, from, to) = links-Goes transitions u v (rw e at h) in
            (t', Memᴰ.tail m, from, to))
    ]

target_known :
    (u v : String) (transitions : List WorkflowTransition)
    → links u v transitions ≡ true
    → contains v (map (λ (t : WorkflowTransition). t.to_step) transitions) ≡ true
unfolding links contains
target_known u v (t ∷ transitions) h = ground (arith, target_known u v transitions)
target_known u v [] h = cc

-- the ways along the transitions, of one or more
pub data Leads (transitions : List WorkflowTransition) : String → String → Type 0 where
  by : {u v : String} → Goes transitions u v → Leads transitions u v
  via : {u v w : String} → Goes transitions u v → Leads transitions v w → Leads transitions u w

module _ (spec : WorkflowSpec) where
  -- every transition starts at a step
  abbrev pub StartsAtSteps : Type 0
  StartsAtSteps =
      (u v : String) → Goes spec.transitions u v → contains u (step_ids spec.steps) ≡ true

  Edge-Goes : {u v : String} → Edge (build_graph spec) u v → Goes spec.transitions u v
  Edge-Goes {u} {v} e = links-Goes spec.transitions u v (ground (arith, edge_graph spec u v))

  Goes-Edge :
      StartsAtSteps → {u v : String} → Goes spec.transitions u v → Edge (build_graph spec) u v
  Goes-Edge starts {u} {v} g =
      rw edge_graph (ground (arith, starts u v g, Goes-links spec.transitions u v g))

  pub Walk-Leads : {u v : String} → Walk (build_graph spec) u v → Leads spec.transitions u v
  Walk-Leads (last e) = by (Edge-Goes e)
  Walk-Leads (step e p) = via (Edge-Goes e) (Walk-Leads p)

  pub Leads-Walk :
      StartsAtSteps → {u v : String} → Leads spec.transitions u v → Walk (build_graph spec) u v
  Leads-Walk starts (by g) = last (Goes-Edge starts g)
  Leads-Walk starts (via g p) = step (Goes-Edge starts g) (Leads-Walk starts p)

  -- a way starts at a step
  pub Leads-start :
      StartsAtSteps
      → {u v : String} → Leads spec.transitions u v
      → contains u (step_ids spec.steps) ≡ true
  Leads-start starts (by {u} {v} g) = starts u v g
  Leads-start starts (via {u} {v} g p) = starts u v g

  pub Edge-known :
      (u v : String) → Edge (build_graph spec) u v → contains v (node_names spec) ≡ true
  unfolding node_names
  Edge-known u v e = ground (
    arith,
    edge_graph spec u v,
    target_known u v spec.transitions,
    contains-append v (step_ids spec.steps)
        (map (λ (t : WorkflowTransition). t.to_step) spec.transitions),
  )

  pub step_known :
      (v : String) → contains v (step_ids spec.steps) ≡ true → contains v (node_names spec) ≡ true
  unfolding node_names
  step_known v h = ground (
    arith,
    contains-append v (step_ids spec.steps)
        (map (λ (t : WorkflowTransition). t.to_step) spec.transitions),
  )
