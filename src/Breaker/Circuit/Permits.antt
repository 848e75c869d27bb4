-- ===== src/Breaker/Circuit/Permits.antt =====
-- The permits of the HALF_OPEN state, over runs that include administration.
use durallm.Common.{◌≤◌, ◌<◌, ◌≡◌, Bool, String, List, arith}
use durallm.Breaker.State.{
  half_open, CircuitBreakerConfig, CircuitBreaker, new_breaker, emit_transition,
}
use durallm.Breaker.Circuit.{
  Readings, check_and_update_state, acquire_permission, record_success, record_failure, force_open,
  force_closed, disable, reset,
}
use durallm.Breaker.Calls.{
  Op, traffic, admin, observe, acquire, success, failure, step_traffic, step_admin, step, run,
  run_induction,
}

pub record IsBounded (b : CircuitBreaker) : Type 0 where
  pub in_flight_bounded : b.state ≡ half_open → b.half_open_in_flight ≤ b.config.half_open_max_calls
  pub successes_bounded :
      b.state ≡ half_open
      → 0 < b.half_open_successes
      → b.half_open_successes < b.config.half_open_max_calls

step-IsBounded :
    (op : Op) (r : Readings) (b : CircuitBreaker) → IsBounded b → IsBounded (step op r b)
unfolding step step_traffic step_admin acquire_permission check_and_update_state record_success
    record_failure force_open force_closed disable reset emit_transition
step-IsBounded (traffic observe) r b h = ground arith
step-IsBounded (traffic acquire) r b h = ground arith
step-IsBounded (traffic (success ms)) r b h = ground arith
step-IsBounded (traffic (failure ms poisons)) r b h = ground arith
step-IsBounded (admin a) r b h = ground arith

-- In every run, administration included, a HALF_OPEN breaker counts at most
-- `half_open_max_calls` probes in flight, and fewer successes than would have closed it.
pub run-IsBounded :
    (id : String) (config : CircuitBreakerConfig) (has_store : Bool) (calls : List (Op × Readings))
    → IsBounded (run (new_breaker id config has_store) calls)
run-IsBounded id config has_store calls =
    run_induction {P = IsBounded} step-IsBounded (new_breaker id config has_store) calls
      (ground arith)
