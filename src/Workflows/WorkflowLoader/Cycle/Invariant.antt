-- ===== src/Workflows/WorkflowLoader/Cycle/Invariant.antt =====
-- What the depth-first search of the workflow loader keeps.
use multi_ai_agent.Prelude.{
  ◌≡◌, refl, ◌∙◌, Bool, true, false, not, ◌&&◌, List, [], ◌∷◌, String, str_eq, eq_iff, eq_refl,
  arith, ◌⊎◌, inl, inr, Bool-cases,
}
use multi_ai_agent.Prelude.Strings.{contains}
use multi_ai_agent.Workflows.WorkflowLoader.Cycle.{
  Graph, Visit, Search, cyclic, clear, out_of_fuel, neighbors, discard, and_then, enter, look, scan,
}

-- visited and no longer on the stack
abbrev pub done : Visit → String → Bool
done s v = contains v s.visited && not (contains v s.rec_stack)

pub discard-absent : (x : String) (ys : List String) → contains x ys ≡ false → discard x ys ≡ ys
unfolding contains discard
discard-absent x [] h = refl
discard-absent x (y ∷ ys) h = ground (arith, discard-absent x ys)

module _ (graph : Graph) where
  abbrev pub Edge : String → String → Type 0
  Edge u v = contains v (neighbors graph u) ≡ true

  -- the walks of one edge or more
  pub data Walk : String → String → Type 0 where
    last : {u v : String} → Edge u v → Walk u v
    step : {u v w : String} → Edge u v → Walk v w → Walk u w

  pub snoc : {u v w : String} → Walk u v → Edge v w → Walk u w
  snoc (last e) f = step e (last f)
  snoc (step e p) f = step e (snoc p f)

  pub record Inv (s : Visit) : Type 0 where
    pub on_stack : (v : String) → contains v s.rec_stack ≡ true → contains v s.visited ≡ true
    pub closed : (u v : String) → done s u ≡ true → Edge u v → done s v ≡ true
    pub acyclic : (v : String) → done s v ≡ true → ¬ Walk v v

  -- What a search that finds no cycle leaves.
  pub record Grown (s t : Visit) : Type 0 where
    pub inv : Inv t
    pub stack : t.rec_stack ≡ s.rec_stack
    pub seen : (v : String) → contains v s.visited ≡ true → contains v t.visited ≡ true

  -- Every node of the stack leads to the node at hand.
  abbrev pub Above : Visit → String → Type 0
  Above s node = (v : String) → contains v s.rec_stack ≡ true → Walk v node

  abbrev Cyclic : Type 0
  Cyclic = (v : String) × Walk v v

  -- a search from a node, where the result is `r`
  abbrev pub Outcome : String → Visit → Search → Type 0
  Outcome node s cyclic = Cyclic
  Outcome node s (clear t) = Grown s t × (done t node ≡ true)
  Outcome node s out_of_fuel = Unit

  abbrev pub IsSound : (String → Visit → Search) → Type 0
  IsSound visit =
      (node : String) (s : Visit)
      → Inv s
      → contains node s.visited ≡ false
      → Above s node
      → Outcome node s (visit node s)

  pub Grown-refl : (s : Visit) → Inv s → Grown s s
  Grown-refl s i = record { inv = i; stack = refl; seen = λ v h. h }

  Grown-trans : (r s t : Visit) → Grown r s → Grown s t → Grown r t
  Grown-trans r s t g h = record {
    inv = h.inv;
    stack = h.stack ∙ g.stack;
    seen = λ v m. h.seen v (g.seen v m);
  }

  Grown-done : (s t : Visit) (v : String) → Grown s t → done s v ≡ true → done t v ≡ true
  Grown-done s t v g h = rw g.stack (ground (arith, g.seen v))

  pub Walk-done : (s : Visit) {u v : String} → Inv s → done s u ≡ true → Walk u v → done s v ≡ true
  Walk-done s i h (last {u} {v} e) = i.closed u v h e
  Walk-done s i h (step {u} {v} e p) = Walk-done s i (i.closed u v h e) p

  -- The nodes of the stack, `u` last, lead to `u`.
  abbrev pub OnTop : Visit → String → Type 0
  OnTop s u = (v : String) → contains v s.rec_stack ≡ true → (v ≡ u) ⊎ Walk v u

  look_sound :
      (visit : String → Visit → Search) (u n : String) (s : Visit)
      → IsSound visit
      → Inv s
      → OnTop s u
      → Edge u n
      → Outcome n s (look visit n s)
  unfolding look
  look_sound visit u n s sound i top e = elim (Bool-cases (contains n s.visited)) [
    | inr fresh ↦ rw fresh (sound n s i fresh above)
    | inl seen ↦ elim (Bool-cases (contains n s.rec_stack)) [
      | inl open_ ↦ rw (seen, open_) (n, around (top n open_))
      | inr past ↦ rw (seen, past) (Grown-refl s i, ground arith)
    ]
  ]
    where
      around : {v : String} → (v ≡ u) ⊎ Walk v u → Walk v n
      around (inl q) = rw q (last e)
      around (inr p) = snoc p e

      above : Above s n
      above v h = around (top v h)

  -- a search from each of `nodes`, where the result is `r`
  abbrev pub Outcomes : List String → Visit → Search → Type 0
  Outcomes nodes s cyclic = Cyclic
  Outcomes nodes s (clear t) =
      Grown s t × ((v : String) → contains v nodes ≡ true → done t v ≡ true)
  Outcomes nodes s out_of_fuel = Unit

  Outcomes-cons :
      (n : String) (nodes : List String) (s t : Visit) (r : Search)
      → Grown s t
      → done t n ≡ true
      → Outcomes nodes t r
      → Outcomes (n ∷ nodes) s r
  unfolding contains
  Outcomes-cons n nodes s t cyclic g d o = o
  Outcomes-cons n nodes s t out_of_fuel g d o = tt
  Outcomes-cons n nodes s t (clear t') g d (h, all) = (
    Grown-trans s t t' g h,
    λ v m. elim (Bool-cases (str_eq n v)) [
      | inl q ↦ rw (← (eq_iff n v).0 q) (Grown-done t t' n h d)
      | inr q ↦ all v (rw q at m)
    ],
  )

  pub Outcomes-and_then :
      (n : String) (nodes : List String) (s : Visit) (r : Search) (k : Visit → Search)
      → Outcome n s r
      → ((t : Visit) → Grown s t → Outcomes nodes t (k t))
      → Outcomes (n ∷ nodes) s (and_then r k)
  Outcomes-and_then n nodes s cyclic k o h = o
  Outcomes-and_then n nodes s out_of_fuel k o h = tt
  Outcomes-and_then n nodes s (clear t) k (g, d) h = Outcomes-cons n nodes s t (k t) g d (h t g)

  pub scan_sound :
      (visit : String → Visit → Search) (u : String) (nodes : List String) (s : Visit)
      → IsSound visit
      → Inv s
      → OnTop s u
      → ((v : String) → contains v nodes ≡ true → Edge u v)
      → Outcomes nodes s (scan visit nodes s)
  unfolding scan contains
  scan_sound visit u [] s sound i top e = (Grown-refl s i, λ v h. cc)
  scan_sound visit u (n ∷ nodes) s sound i top e =
      Outcomes-and_then n nodes s (look visit n s) (λ t. scan visit nodes t)
        (look_sound visit u n s sound i top (e n (simp eq_refl)))
        (λ t g.
          scan_sound visit u nodes t sound g.inv (λ v h. top v (rw g.stack at h))
            (λ v h. e v (ground arith)))

  pub Inv-enter :
      (node : String) (s : Visit) → Inv s → contains node s.visited ≡ false → Inv (enter node s)
  unfolding contains
  Inv-enter node s i fresh = record {
    on_stack = λ v h. ground (arith, i.on_stack v);
    closed = λ u v h e. ground (arith, i.closed u v, eq_iff node v);
    acyclic = λ v h. i.acyclic v (ground (arith, eq_iff node v));
  }
