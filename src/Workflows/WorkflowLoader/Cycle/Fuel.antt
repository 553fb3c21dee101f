-- ===== src/Workflows/WorkflowLoader/Cycle/Fuel.antt =====
-- The depth-first search of the workflow loader ends: each nested call visits a new node.
use multi_ai_agent.Prelude.{
  ℕ, zero, suc, ◌≤◌, ◌≡◌, true, false, List, [], ◌∷◌, String, eq_refl, arith, inl, inr, Bool-cases,
  if◌then◌else◌,
}
use multi_ai_agent.Prelude.Strings.{contains, missing, missing-antitone, missing-cons}
use multi_ai_agent.Workflows.WorkflowLoader.Cycle.{
  Graph, Visit, Search, cyclic, clear, out_of_fuel, neighbors, and_then, enter, leave, look, scan,
  has_cycle, visit_all,
}
use multi_ai_agent.Workflows.WorkflowLoader.Cycle.Invariant.{Edge}

-- The search ends, and what was visited stays so.
abbrev pub Ends : Visit → Search → Type 0
Ends s cyclic = Unit
Ends s (clear t) = (v : String) → contains v s.visited ≡ true → contains v t.visited ≡ true
Ends s out_of_fuel = ⊥

Ends-trans : (s t : Visit) (r : Search) → Ends s (clear t) → Ends t r → Ends s r
Ends-trans s t cyclic g h = tt
Ends-trans s t out_of_fuel g h = h
Ends-trans s t (clear u) g h = λ v m. h v (g v m)

Ends-and_then :
    (s : Visit) (r : Search) (k : Visit → Search)
    → Ends s r
    → ((t : Visit) → Ends s (clear t) → Ends t (k t))
    → Ends s (and_then r k)
Ends-and_then s cyclic k e h = tt
Ends-and_then s out_of_fuel k e h = e
Ends-and_then s (clear t) k e h = Ends-trans s t (k t) e (h t e)

-- `names` holds every node of the graph
module _ (graph : Graph) (names : List String) where
  abbrev pub IsTotal : ℕ → (String → Visit → Search) → Type 0
  IsTotal fuel visit =
      (node : String) (s : Visit)
      → contains node names ≡ true
      → contains node s.visited ≡ false
      → missing s.visited names ≤ fuel
      → Ends s (visit node s)

  missing-Ends :
      (s t : Visit) (fuel : ℕ)
      → Ends s (clear t)
      → missing s.visited names ≤ fuel
      → missing t.visited names ≤ fuel
  missing-Ends s t fuel e h = omega (arith, missing-antitone s.visited t.visited names e)

  scan-Ends :
      (fuel : ℕ) (visit : String → Visit → Search) (nodes : List String) (s : Visit)
      → IsTotal fuel visit
      → ((v : String) → contains v nodes ≡ true → contains v names ≡ true)
      → missing s.visited names ≤ fuel
      → Ends s (scan visit nodes s)
  unfolding scan contains look
  scan-Ends fuel visit [] s total sub h = λ v m. m
  scan-Ends fuel visit (n ∷ nodes) s total sub h =
      Ends-and_then s (look visit n s) (λ t. scan visit nodes t) first
        (λ t e.
          scan-Ends fuel visit nodes t total (λ v m. sub v (ground arith))
            (missing-Ends s t fuel e h))
    where
      first : Ends s (look visit n s)
      first = elim (Bool-cases (contains n s.visited)) [
        | inr fresh ↦ rw fresh (total n s (sub n (simp eq_refl)) fresh h)
        | inl seen ↦ elim (Bool-cases (contains n s.rec_stack)) [
          | inl open_ ↦ rw (seen, open_) tt
          | inr past ↦ rw (seen, past) (λ v m. m)
        ]
      ]

  module _ (closed : (u v : String) → Edge graph u v → contains v names ≡ true) where
    has_cycle-Ends : (fuel : ℕ) → IsTotal fuel (has_cycle graph fuel)
    unfolding has_cycle contains
    has_cycle-Ends zero node s known fresh h =
        omega (arith, missing-cons node s.visited names known fresh)
    has_cycle-Ends (suc fuel) node s known fresh h =
        Ends-and_then s (scan (has_cycle graph fuel) (neighbors graph node) (enter node s))
          (λ t. clear (leave node t))
          (Ends-trans s (enter node s)
            (scan (has_cycle graph fuel) (neighbors graph node) (enter node s))
            (λ v m. ground arith)
            (scan-Ends fuel (has_cycle graph fuel) (neighbors graph node) (enter node s)
              (has_cycle-Ends fuel) (closed node)
              (omega (arith, missing-cons node s.visited names known fresh))))
          (λ t e v m. m)

    pub visit_all-Ends :
        (fuel : ℕ) (nodes : List String) (s : Visit)
        → ((v : String) → contains v nodes ≡ true → contains v names ≡ true)
        → missing s.visited names ≤ fuel
        → Ends s (visit_all (has_cycle graph fuel) nodes s)
    unfolding visit_all contains
    visit_all-Ends fuel [] s sub h = λ v m. m
    visit_all-Ends fuel (n ∷ nodes) s sub h =
        Ends-and_then s (if contains n s.visited then clear s else has_cycle graph fuel n s)
          (λ t. visit_all (has_cycle graph fuel) nodes t) first
          (λ t e.
            visit_all-Ends fuel nodes t (λ v m. sub v (ground arith)) (missing-Ends s t fuel e h))
      where
        first : Ends s (if contains n s.visited then clear s else has_cycle graph fuel n s)
        first = elim (Bool-cases (contains n s.visited)) [
          | inr fresh ↦ rw fresh (has_cycle-Ends fuel n s (sub n (simp eq_refl)) fresh h)
          | inl seen ↦ rw seen (λ v m. m)
        ]
