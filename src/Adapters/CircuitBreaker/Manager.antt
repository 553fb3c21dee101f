-- ===== src/Adapters/CircuitBreaker/Manager.antt =====
-- The manager of the named breakers. A breaker is a shared object in the source; here its name is
-- the reference to it, and a change of it is written back under the name.
use multi_ai_agent.Prelude.{
  ℕ, ◌≡◌, Option, none, some, String, if◌then◌else◌, str_eq, eq_refl, arith, [], Option-cases, inl,
  inr, eq_iff,
}
use multi_ai_agent.Prelude.Dict
use multi_ai_agent.Prelude.Dict.{Dict, map_option, dict_laws, get-put, get-map_values}
use multi_ai_agent.Adapters.CircuitBreaker.{Breaker, Stats, init, reset, get_stats}

pub record CircuitBreakerManager : Type 0 where
  pub breakers : Dict Breaker

unfoldable pub empty : CircuitBreakerManager
empty = record { breakers = [] }

abbrev get_or_create :
    Option Breaker → CircuitBreakerManager → String → ℕ → ℕ → CircuitBreakerManager × Breaker
get_or_create (some b) m name failure_threshold recovery_timeout = (m, b)
get_or_create none m name failure_threshold recovery_timeout =
    let b = init name failure_threshold recovery_timeout in
    (record m { breakers = Dict.put name b m.breakers }, b)

-- `get_breaker`, with the keyword arguments that configure a new breaker.
unfoldable pub get_breaker :
    CircuitBreakerManager → String → ℕ → ℕ → CircuitBreakerManager × Breaker
get_breaker m name failure_threshold recovery_timeout =
    get_or_create (Dict.get name m.breakers) m name failure_threshold recovery_timeout

unfoldable pub reset_all : CircuitBreakerManager → CircuitBreakerManager
reset_all m = record m { breakers = Dict.map_values reset m.breakers }

abbrev reset_found : Option Breaker → CircuitBreakerManager → String → CircuitBreakerManager
reset_found none m name = m
reset_found (some b) m name = record m { breakers = Dict.put name (reset b) m.breakers }

unfoldable pub reset_one : CircuitBreakerManager → String → CircuitBreakerManager
reset_one m name = reset_found (Dict.get name m.breakers) m name

unfoldable pub get_all_stats : CircuitBreakerManager → Dict Stats
get_all_stats m = Dict.map_to get_stats m.breakers

module _ (m : CircuitBreakerManager) (name : String) where
  -- A name that the manager has stands for the breaker that it holds, and the arguments for a new
  -- one are not used; any other name gives a new closed breaker, which the manager then holds and
  -- gives out again, whatever the arguments of the next call. Other names keep their breakers.
  pub get_breaker-get_breaker :
      (th timeout th' timeout' : ℕ)
      → let (m', b) = get_breaker m name th timeout in
        (get_breaker m' name th' timeout' ≡ (m', b))
        × ((j : String)
            → Dict.get j m'.breakers ≡ (if str_eq name j then some b else Dict.get j m.breakers))
  unfolding get_breaker
  get_breaker-get_breaker th timeout th' timeout' = elim (Option-cases (Dict.get name m.breakers)) [
    | inl e ↦ rw e (simp (get-put, eq_refl), λ j. get-put name j (init name th timeout) m.breakers)
    | inr (b, e) ↦ rw e (rw e, λ j. ground (arith, eq_iff name j))
  ]

  -- `reset_all` gives every breaker that the manager holds the state of `reset`, and no other.
  pub get-reset_all :
      (j : String) → Dict.get j (reset_all m).breakers ≡ map_option reset (Dict.get j m.breakers)
  unfolding reset_all
  get-reset_all j = get-map_values reset j m.breakers

  pub get-reset_one :
      (j : String)
      → Dict.get j (reset_one m name).breakers ≡ (
          if str_eq name j
          then map_option reset (Dict.get name m.breakers)
          else Dict.get j m.breakers)
  unfolding reset_one
  get-reset_one j = elim (Option-cases (Dict.get name m.breakers)) [
    | inl e ↦ rw e (ground (arith, eq_iff name j))
    | inr (b, e) ↦ rw e (get-put name j (reset b) m.breakers)
  ]
