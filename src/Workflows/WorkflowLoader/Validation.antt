-- ===== src/Workflows/WorkflowLoader/Validation.antt =====
-- Which specifications the validation of libs/workflows/workflow_loader.py lets pass.
use multi_ai_agent.Prelude.{
  ◌≡◌, ◌≢◌, refl, true, false, List, [], ◌∷◌, String, eq_iff, arith, inl, inr, ◌↔◌, ◌⊎◌, length,
  ==_iff, All, ok, err,
}
use mathlib.Core.List.{Memᴰ}
use mathlib.Core.List.Memᴰ
use multi_ai_agent.Prelude.Strings.{contains, distinct, IsUnique, length-distinct, missing-le}
use multi_ai_agent.Workflows.WorkflowLoader.{
  WorkflowStep, WorkflowTransition, WorkflowSpec, is_blank, step_ids, check_transitions,
  search_cycles, raise_if_cyclic, check_circular_dependencies, valid_types, has_key, validate_step,
  validate_steps, validate_spec, build_graph, node_names, circular_dependency,
}
use multi_ai_agent.Workflows.WorkflowLoader.Edges.{
  Leads, StartsAtSteps, Walk-Leads, Leads-Walk, Leads-start, Edge-known, step_known,
}
use multi_ai_agent.Workflows.WorkflowLoader.Cycle.{Search, Visit, cyclic, clear, out_of_fuel}
use multi_ai_agent.Workflows.WorkflowLoader.Cycle.Invariant.{Inv, Outcomes}
use multi_ai_agent.Workflows.WorkflowLoader.Cycle.Correct.{visit_all_sound}
use multi_ai_agent.Workflows.WorkflowLoader.Cycle.Fuel.{Ends, visit_all-Ends}

abbrev blank : Visit
blank = record { visited = []; rec_stack = [] }

module _ (spec : WorkflowSpec) where
  Inv-blank : Inv (build_graph spec) blank
  unfolding contains
  Inv-blank = record {
    on_stack = λ v h. ground arith;
    closed = λ u v h e. ground arith;
    acyclic = λ v h p. ground arith;
  }

  search_cycles_sound : Outcomes (build_graph spec) (step_ids spec.steps) blank (search_cycles spec)
  unfolding search_cycles
  search_cycles_sound =
      visit_all_sound (build_graph spec) (length (node_names spec)) (step_ids spec.steps) blank
        Inv-blank refl

  search_cycles-Ends : Ends blank (search_cycles spec)
  unfolding search_cycles
  search_cycles-Ends =
      visit_all-Ends (build_graph spec) (node_names spec) (Edge-known spec)
        (length (node_names spec)) (step_ids spec.steps) blank (step_known spec)
        (missing-le [] (node_names spec))

  abbrev pub IsAcyclic : Type 0
  IsAcyclic = (v : String) → ¬ Leads spec.transitions v v

  -- If every transition starts at a step, the check raises exactly when the transitions lead
  -- from some node back to it, and then it names the circular dependency.
  pub check_circular_dependencies_correct :
      StartsAtSteps spec
      → ((check_circular_dependencies spec ≡ ok tt) × IsAcyclic)
        ⊎ ((check_circular_dependencies spec ≡ err circular_dependency)
            × (v : String) × Leads spec.transitions v v)
  unfolding check_circular_dependencies
  check_circular_dependencies_correct starts =
      judge (search_cycles spec) search_cycles_sound search_cycles-Ends
    where
      judge :
          (r : Search)
          → Outcomes (build_graph spec) (step_ids spec.steps) blank r
          → Ends blank r
          → ((raise_if_cyclic r ≡ ok tt) × IsAcyclic)
            ⊎ ((raise_if_cyclic r ≡ err circular_dependency)
                × (v : String) × Leads spec.transitions v v)
      judge cyclic (v, p) e = inr (refl, v, Walk-Leads spec p)
      judge (clear t) (g, all) e = inl (
        refl,
        λ v p. g.inv.acyclic v (all v (Leads-start spec starts p)) (Leads-Walk spec starts p),
      )
      judge out_of_fuel o e = absurd e

-- Both ends are steps; a transition may also lead to the end of the workflow.
abbrev pub IsJoined : List String → WorkflowTransition → Type 0
IsJoined ids t =
    (contains t.from_step ids ≡ true) × ((contains t.to_step ids ≡ true) ⊎ (t.to_step ≡ "end"))

pub record IsValidStep (s : WorkflowStep) : Type 0 where
  pub has_id : s.id ≢ ""
  pub has_name : s.name ≢ ""
  pub known_type : contains s.type valid_types ≡ true
  pub validator :
      s.type ≡ "validator" → (has_key "schema" s.config ≡ true) ⊎ (has_key "rules" s.config ≡ true)
  pub tool_call : s.type ≡ "tool_call" → has_key "tool" s.config ≡ true

pub record IsValid (spec : WorkflowSpec) : Type 0 where
  pub named : is_blank spec.name ≡ false
  pub unique : IsUnique (step_ids spec.steps)
  pub joined : All (IsJoined (step_ids spec.steps)) spec.transitions
  pub acyclic : IsAcyclic spec
  pub steps : All IsValidStep spec.steps

check_transitions_correct :
    (ids : List String) (transitions : List WorkflowTransition)
    → (check_transitions ids transitions ≡ ok tt) ↔ All (IsJoined ids) transitions
unfolding check_transitions
check_transitions_correct ids [] = ground arith
check_transitions_correct ids (t ∷ transitions) =
    ground (arith, check_transitions_correct ids transitions, eq_iff t.to_step "end")

empty_type : contains "" valid_types ≡ false
unfolding contains
empty_type = refl

validate_step_correct : (s : WorkflowStep) → (validate_step s ≡ ok tt) ↔ IsValidStep s
unfolding validate_step
validate_step_correct s = ground (
  arith,
  eq_iff s.id "",
  eq_iff s.name "",
  eq_iff s.type "",
  eq_iff s.type "validator",
  eq_iff s.type "tool_call",
  empty_type,
)

validate_steps_correct :
    (steps : List WorkflowStep) → (validate_steps steps ≡ ok tt) ↔ All IsValidStep steps
unfolding validate_steps
validate_steps_correct [] = ground arith
validate_steps_correct (s ∷ steps) =
    ground (arith, validate_step_correct s, validate_steps_correct steps)

All-mem :
    (ids : List String) (transitions : List WorkflowTransition)
    → All (IsJoined ids) transitions
    → (t : WorkflowTransition) → Memᴰ t transitions
    → IsJoined ids t
All-mem ids [] h t m = absurd (Memᴰ.not-nil m)
All-mem ids (t' ∷ transitions) h t (Memᴰ.head p) = rw p h.0
All-mem ids (t' ∷ transitions) h t (Memᴰ.tail m) = All-mem ids transitions h.1 t m

joined-StartsAtSteps :
    (spec : WorkflowSpec)
    → All (IsJoined (step_ids spec.steps)) spec.transitions
    → StartsAtSteps spec
joined-StartsAtSteps spec h =
    λ u v (t, m, from, to). rw (← from) (All-mem (step_ids spec.steps) spec.transitions h t m).0

-- the five parts of the validation
validate_spec_parts :
    (spec : WorkflowSpec)
    → let ids = step_ids spec.steps in
      (validate_spec spec ≡ ok tt) ↔ (
        (is_blank spec.name ≡ false)
        × (length (distinct ids) ≡ length ids)
        × (check_transitions ids spec.transitions ≡ ok tt)
        × (check_circular_dependencies spec ≡ ok tt)
        × (validate_steps spec.steps ≡ ok tt))
unfolding validate_spec
validate_spec_parts spec =
    ground (arith, ==_iff (length (step_ids spec.steps)) (length (distinct (step_ids spec.steps))))

acyclic_ok :
    (spec : WorkflowSpec)
    → StartsAtSteps spec
    → (check_circular_dependencies spec ≡ ok tt) ↔ IsAcyclic spec
acyclic_ok spec starts = elim (check_circular_dependencies_correct spec starts) [
  | inl (e, acyclic) ↦ (λ _. acyclic, λ _. e)
  | inr (e, v, p) ↦ (λ h. cc, λ acyclic. absurd (acyclic v p))
]

-- The validation lets a specification pass exactly when the name has a character that is not white
-- space, no two steps have the same id, every transition starts at a step and leads to a step or to
-- "end", no node is reached from itself along the transitions, and every step has an id, a name,
-- one of the known types, and the configuration that its type asks for.
pub validate_spec_correct : (spec : WorkflowSpec) → (validate_spec spec ≡ ok tt) ↔ IsValid spec
validate_spec_correct spec = (accepted, accepts)
  where
    accepted : validate_spec spec ≡ ok tt → IsValid spec
    accepted h =
        let (named, unique, joined, acyclic, steps) = (validate_spec_parts spec).0 h in
        let joins = (check_transitions_correct (step_ids spec.steps) spec.transitions).0 joined in
        record {
          named = named;
          unique = (length-distinct (step_ids spec.steps)).0 unique;
          joined = joins;
          acyclic = (acyclic_ok spec (joined-StartsAtSteps spec joins)).0 acyclic;
          steps = (validate_steps_correct spec.steps).0 steps;
        }

    accepts : IsValid spec → validate_spec spec ≡ ok tt
    accepts v = (validate_spec_parts spec).1 (
      v.named,
      (length-distinct (step_ids spec.steps)).1 v.unique,
      (check_transitions_correct (step_ids spec.steps) spec.transitions).1 v.joined,
      (acyclic_ok spec (joined-StartsAtSteps spec v.joined)).1 v.acyclic,
      (validate_steps_correct spec.steps).1 v.steps,
    )
