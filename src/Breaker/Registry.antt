-- ===== src/Breaker/Registry.antt =====
-- durallm/breaker/registry.py: breakers by id. A caller of `get_or_create` gets the object that
-- the registry holds, so a call on that object is an `update` at its id.
use durallm.Common.{
  ◌≡◌, refl, false, Option, none, some, String, [], ◌∷◌, arith, eq_iff, ◌==◌, string_eq,
}
use durallm.Common.Dict
use durallm.Common.Dict.{Dict, dict_laws}
use mathlib.Core.Option
use durallm.Breaker.State.{CircuitBreakerConfig, CircuitBreaker, new_breaker}
use durallm.Breaker.Circuit
use durallm.Breaker.Circuit.{Readings}

pub record CircuitBreakerRegistry : Type 0 where
  pub default_config : CircuitBreakerConfig
  pub breakers : Dict String CircuitBreaker

or_default : Option CircuitBreakerConfig → CircuitBreakerConfig → CircuitBreakerConfig
or_default none d = d
or_default (some c) d = c

found_or_new :
    Option CircuitBreaker
    → String
    → Option CircuitBreakerConfig
    → CircuitBreakerRegistry
    → CircuitBreaker × CircuitBreakerRegistry
unfolding or_default
found_or_new (some b) id config g = (b, g)
found_or_new none id config g =
    let b = new_breaker id (or_default config g.default_config) false in
    (b, record g { breakers = Dict.insert id b g.breakers })

pub get_or_create :
    String
    → Option CircuitBreakerConfig
    → CircuitBreakerRegistry
    → CircuitBreaker × CircuitBreakerRegistry
unfolding found_or_new
get_or_create id config g = found_or_new (Dict.lookup id g.breakers) id config g

abbrev pub get : String → CircuitBreakerRegistry → Option CircuitBreaker
get id g = Dict.lookup id g.breakers

reset_each : (String → Readings) → Dict String CircuitBreaker → Dict String CircuitBreaker
reset_each r [] = []
reset_each r ((id, b) ∷ bs) = (id, Circuit.reset (r id) b) ∷ reset_each r bs

pub reset_all : (String → Readings) → CircuitBreakerRegistry → CircuitBreakerRegistry
unfolding reset_each
reset_all r g = record g { breakers = reset_each r g.breakers }

-- A second `get_or_create` of an id returns the breaker that the first returned and changes
-- nothing, whatever configuration it names; another id keeps what it had.
get_or_create_twice :
    (id : String) (c c' : Option CircuitBreakerConfig) (g : CircuitBreakerRegistry)
    → let (b, g') = get_or_create id c g in
      (get_or_create id c' g' ≡ (b, g')) × ((j : String) → (id == j) ≡ false → get j g' ≡ get j g)
unfolding get_or_create
get_or_create_twice id c c' g =
    let b = new_breaker id (or_default c g.default_config) false in
    (
      ground (arith, Dict.lookup-insert_self id b g.breakers),
      λ j ne. ground (arith, Dict.lookup-insert id j b g.breakers),
    )

reset_each-lookup :
    (r : String → Readings) (bs : Dict String CircuitBreaker) (id : String)
    → Dict.lookup id (reset_each r bs) ≡ Option.map (Circuit.reset (r id)) (Dict.lookup id bs)
unfolding Dict.lookup reset_each
reset_each-lookup r [] id = refl
reset_each-lookup r ((j, b) ∷ bs) id = ground (arith, eq_iff j id, reset_each-lookup r bs id)

-- `reset_all` resets every registered breaker and registers none.
get-reset_all :
    (r : String → Readings) (g : CircuitBreakerRegistry) (id : String)
    → get id (reset_all r g) ≡ Option.map (Circuit.reset (r id)) (get id g)
unfolding reset_all
get-reset_all r g id = reset_each-lookup r g.breakers id
