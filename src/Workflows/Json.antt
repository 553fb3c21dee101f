-- ===== src/Workflows/Json.antt =====
-- The values of a parsed YAML or JSON document, with the keys of a mapping in the order of insertion.
use multi_ai_agent.Prelude.{
  ◌≡◌, refl, Bool, Option, none, some, String, str_eq, eq_iff, arith, if◌then◌else◌,
}
use multi_ai_agent.Prelude.Int.{ℤ}

mutual
  pub data Json : Type 0 where
    null : Json
    boolean : Bool → Json
    number : ℤ → Json
    text : String → Json
    array : Items → Json
    object : Fields → Json

  pub data Items : Type 0 where
    no_items : Items
    item : Json → Items → Items

  pub data Fields : Type 0 where
    no_fields : Fields
    field : String → Json → Fields → Fields

-- `d.get(k)`
unfoldable pub lookup : String → Fields → Option Json
lookup k no_fields = none
lookup k (field j v fs) = if str_eq j k then some v else lookup k fs

-- `d[k] = v`
unfoldable pub assign : String → Json → Fields → Fields
assign k v no_fields = field k v no_fields
assign k v (field j w fs) =
    let rest = assign k v fs in if str_eq j k then field k v fs else field j w rest

-- A mapping that was parsed has no key twice.
abbrev pub HasUniqueFields : Fields → Type 0
HasUniqueFields no_fields = Unit
HasUniqueFields (field k v fs) = (lookup k fs ≡ none) × HasUniqueFields fs

pub lookup-assign :
    (k j : String) (v : Json) (fs : Fields)
    → lookup j (assign k v fs) ≡ (if str_eq k j then some v else lookup j fs)
unfolding lookup assign
lookup-assign k j v no_fields = refl
lookup-assign k j v (field i w fs) =
    ground (arith, eq_iff k j, eq_iff i k, eq_iff i j, lookup-assign k j v fs)
