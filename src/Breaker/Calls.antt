-- ===== src/Breaker/Calls.antt =====
-- One call of a method of a breaker, and a sequence of calls. The lock makes every call atomic, so
-- a concurrent run is some sequence.
use durallm.Common.{ℕ, Bool, List, [], ◌∷◌}
use durallm.Breaker.State.{CircuitBreaker}
use durallm.Breaker.Circuit
use durallm.Breaker.Circuit.{Readings}

-- The calls that traffic makes; `observe` reads the `state` property.
pub data Traffic : Type 0 where
  observe acquire : Traffic
  success : ℕ → Traffic
  failure : ℕ → Bool → Traffic

pub data Admin : Type 0 where
  force_open force_closed disable reset : Admin

pub data Op : Type 0 where
  traffic : Traffic → Op
  admin : Admin → Op

unfoldable pub step_traffic : Traffic → Readings → CircuitBreaker → CircuitBreaker
step_traffic observe r b = Circuit.check_and_update_state r b
step_traffic acquire r b = (Circuit.acquire_permission r b).1
step_traffic (success ms) r b = Circuit.record_success ms r b
step_traffic (failure ms poisons) r b = Circuit.record_failure ms poisons r b

unfoldable pub step_admin : Admin → Readings → CircuitBreaker → CircuitBreaker
step_admin force_open r b = Circuit.force_open r b
step_admin force_closed r b = Circuit.force_closed r b
step_admin disable r b = Circuit.disable r b
step_admin reset r b = Circuit.reset r b

unfoldable pub step : Op → Readings → CircuitBreaker → CircuitBreaker
step (traffic t) r b = step_traffic t r b
step (admin a) r b = step_admin a r b

unfoldable pub run : CircuitBreaker → List (Op × Readings) → CircuitBreaker
run b [] = b
run b ((op, r) ∷ calls) = run (step op r b) calls

unfoldable pub run_traffic : CircuitBreaker → List (Traffic × Readings) → CircuitBreaker
run_traffic b [] = b
run_traffic b ((t, r) ∷ calls) = run_traffic (step_traffic t r b) calls

-- What each call keeps, every sequence keeps.
module _ {P : CircuitBreaker → Type 0} where
  pub run_induction :
      ((op : Op) (r : Readings) (b : CircuitBreaker) → P b → P (step op r b))
      → (b : CircuitBreaker) (calls : List (Op × Readings)) → P b
      → P (run b calls)
  unfolding run
  run_induction keep b [] h = h
  run_induction keep b ((op, r) ∷ calls) h = run_induction keep (step op r b) calls (keep op r b h)

  pub run_traffic_induction :
      ((t : Traffic) (r : Readings) (b : CircuitBreaker) → P b → P (step_traffic t r b))
      → (b : CircuitBreaker) (calls : List (Traffic × Readings)) → P b
      → P (run_traffic b calls)
  unfolding run_traffic
  run_traffic_induction keep b [] h = h
  run_traffic_induction keep b ((t, r) ∷ calls) h =
      run_traffic_induction keep (step_traffic t r b) calls (keep t r b h)
