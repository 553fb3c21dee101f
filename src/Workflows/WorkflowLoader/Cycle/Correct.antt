-- ===== src/Workflows/WorkflowLoader/Cycle/Correct.antt =====
-- The search finds a cycle exactly when the graph of the workflow has one, and it ends.
use multi_ai_agent.Prelude.{
  ℕ, zero, suc, ◌≡◌, sym, ◌∙◌, true, false, ◌||◌, List, [], ◌∷◌, String, str_eq, eq_iff, eq_refl,
  arith, inl, inr, Bool-cases, if◌then◌else◌,
}
use multi_ai_agent.Prelude.Strings.{contains}
use multi_ai_agent.Workflows.WorkflowLoader.Cycle.{
  Graph, Visit, Search, cyclic, clear, out_of_fuel, neighbors, discard, and_then, enter, leave,
  scan, has_cycle, visit_all,
}
use multi_ai_agent.Workflows.WorkflowLoader.Cycle.Invariant.{
  Edge, Walk, last, step, done, Inv, Grown, Outcome, IsSound, Outcomes, Walk-done, OnTop,
  scan_sound, Inv-enter, discard-absent, Grown-refl, Outcomes-and_then,
}

-- the state after `rec_stack.remove(node)`, where the stack is again that of `s`
module _ (graph : Graph) (node : String) (s t : Visit) where
  module _ (i : Inv graph s) (fresh : contains node s.visited ≡ false)
      (g : Grown graph (enter node s) t)
      (all : (v : String) → Edge graph node v → done t v ≡ true) where
    off_stack : contains node s.rec_stack ≡ false
    off_stack = ground (arith, i.on_stack node)

    stack_back : discard node t.rec_stack ≡ s.rec_stack
    unfolding discard
    stack_back = rw g.stack (simp (eq_refl, discard-absent node s.rec_stack off_stack))

    node_seen : contains node t.visited ≡ true
    unfolding contains
    node_seen = g.seen node (simp eq_refl)

    node_open : done t node ≡ false
    unfolding contains
    node_open = rw g.stack (ground (arith, eq_refl node))

    done_leave : (v : String) → done (leave node t) v ≡ (done t v || str_eq node v)
    unfolding contains
    done_leave v = rw stack_back (ground (arith, g.stack, node_seen, off_stack, eq_iff node v))

    no_return : ¬ Walk graph node node
    no_return (last e) = ground (arith, node_open, all node e)
    no_return (step {u} {v} e p) = ground (arith, node_open, Walk-done graph t g.inv (all v e) p)

    Outcome-leave : Outcome graph node s (clear (leave node t))
    unfolding contains
    Outcome-leave = (
      record {
        inv = record {
          on_stack = λ v h. g.seen v (ground (arith, stack_back, i.on_stack v));
          closed = λ u v h e. rw (done_leave v) (elim (Bool-cases (str_eq node u)) [
            | inl q ↦ ground (arith, all v (rw (← (eq_iff node u).0 q) at e))
            | inr q ↦ ground (arith, g.inv.closed u v (ground (arith, done_leave u)) e)
          ]);
          acyclic = λ v h p. elim (Bool-cases (str_eq node v)) [
            | inl q ↦ no_return (rw (← (eq_iff node v).0 q) at p)
            | inr q ↦ g.inv.acyclic v (ground (arith, done_leave v)) p
          ];
        };
        stack = stack_back;
        seen = λ v h. g.seen v (ground arith);
      },
      rw (done_leave node) (ground (arith, eq_refl node)),
    )

module _ (graph : Graph) where
  leave_sound :
      (node : String) (s : Visit) (r : Search)
      → Inv graph s
      → contains node s.visited ≡ false
      → Outcomes graph (neighbors graph node) (enter node s) r
      → Outcome graph node s (and_then r (λ t. clear (leave node t)))
  leave_sound node s cyclic i fresh o = o
  leave_sound node s out_of_fuel i fresh o = o
  leave_sound node s (clear t) i fresh (g, all) = Outcome-leave graph node s t i fresh g all

  has_cycle-IsSound : (fuel : ℕ) → IsSound graph (has_cycle graph fuel)
  unfolding has_cycle contains
  has_cycle-IsSound zero node s i fresh above = tt
  has_cycle-IsSound (suc fuel) node s i fresh above =
      leave_sound node s (scan (has_cycle graph fuel) (neighbors graph node) (enter node s)) i fresh
        (scan_sound graph (has_cycle graph fuel) node (neighbors graph node) (enter node s)
          (has_cycle-IsSound fuel) (Inv-enter graph node s i fresh) top (λ v h. h))
    where
      top : OnTop graph (enter node s) node
      top v h = elim (Bool-cases (str_eq node v)) [
        | inl q ↦ inl (sym ((eq_iff node v).0 q))
        | inr q ↦ inr (above v (rw q at h))
      ]

  visit_sound :
      (fuel : ℕ) (n : String) (s : Visit)
      → Inv graph s
      → s.rec_stack ≡ []
      → Outcome graph n s (if contains n s.visited then clear s else has_cycle graph fuel n s)
  unfolding contains
  visit_sound fuel n s i e = elim (Bool-cases (contains n s.visited)) [
    | inl seen ↦ rw seen (Grown-refl graph s i, rw e (ground arith))
    | inr fresh ↦ rw fresh (has_cycle-IsSound fuel n s i fresh (λ v h. absurd (none_open v h)))
  ]
    where
      none_open : (v : String) → ¬ (contains v s.rec_stack ≡ true)
      none_open v = rw e (ground arith)

  pub visit_all_sound :
      (fuel : ℕ) (nodes : List String) (s : Visit)
      → Inv graph s
      → s.rec_stack ≡ []
      → Outcomes graph nodes s (visit_all (has_cycle graph fuel) nodes s)
  unfolding visit_all contains
  visit_all_sound fuel [] s i e = (Grown-refl graph s i, λ v h. cc)
  visit_all_sound fuel (n ∷ nodes) s i e =
      Outcomes-and_then graph n nodes s
        (if contains n s.visited then clear s else has_cycle graph fuel n s)
        (λ t. visit_all (has_cycle graph fuel) nodes t) (visit_sound fuel n s i e)
        (λ t g. visit_all_sound fuel nodes t g.inv (g.stack ∙ e))
