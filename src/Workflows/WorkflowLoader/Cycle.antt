-- ===== src/Workflows/WorkflowLoader/Cycle.antt =====
-- The depth-first search of `_check_circular_dependencies` in libs/workflows/workflow_loader.py.
-- The fuel bounds the depth of the recursion of `has_cycle`.
pub mod Invariant
pub mod Correct
pub mod Fuel
use multi_ai_agent.Prelude.{
  ℕ, zero, suc, Bool, true, false, Option, none, some, List, [], ◌∷◌, ◌++◌, String, str_eq,
  if◌then◌else◌,
}
use multi_ai_agent.Prelude.Dict.{Dict, get}
use multi_ai_agent.Prelude.Strings.{contains}

abbrev pub Graph : Type 0
Graph = Dict (List String)

-- `visited` and `rec_stack`
pub record Visit : Type 0 where
  pub visited : List String
  pub rec_stack : List String

pub data Search : Type 0 where
  cyclic : Search
  clear : Visit → Search
  out_of_fuel : Search

-- `graph.get(node, [])`
abbrev pub or_empty : Option (List String) → List String
or_empty none = []
or_empty (some nodes) = nodes

unfoldable pub neighbors : Graph → String → List String
neighbors graph node = or_empty (get node graph)

-- `rec_stack.remove(node)`
unfoldable pub discard : String → List String → List String
discard x [] = []
discard x (y ∷ ys) = let rest = discard x ys in if str_eq y x then rest else y ∷ rest

abbrev pub and_then : Search → (Visit → Search) → Search
and_then cyclic k = cyclic
and_then (clear s) k = k s
and_then out_of_fuel k = out_of_fuel

abbrev pub enter : String → Visit → Visit
enter node s = record { visited = node ∷ s.visited; rec_stack = node ∷ s.rec_stack }

abbrev pub leave : String → Visit → Visit
leave node s = record s { rec_stack = discard node s.rec_stack }

-- one neighbor
unfoldable pub look : (String → Visit → Search) → String → Visit → Search
look visit neighbor s =
    if contains neighbor s.visited
    then (if contains neighbor s.rec_stack then cyclic else clear s)
    else visit neighbor s

unfoldable pub scan : (String → Visit → Search) → List String → Visit → Search
scan visit [] s = clear s
scan visit (n ∷ nodes) s = and_then (look visit n s) (λ t. scan visit nodes t)

unfoldable pub has_cycle : Graph → ℕ → String → Visit → Search
has_cycle graph zero node s = out_of_fuel
has_cycle graph (suc fuel) node s =
    and_then (scan (has_cycle graph fuel) (neighbors graph node) (enter node s))
      (λ t. clear (leave node t))

-- the loop over the steps
unfoldable pub visit_all : (String → Visit → Search) → List String → Visit → Search
visit_all visit [] s = clear s
visit_all visit (n ∷ nodes) s =
    and_then (if contains n s.visited then clear s else visit n s) (λ t. visit_all visit nodes t)
