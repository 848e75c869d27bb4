-- ===== src/Breaker/Circuit/History.antt =====
-- What the events of any run of a breaker say.
use mathlib.Core.Path.{subst}
use durallm.Breaker.Metrics
use durallm.Common.{sym, refl, if◌then◌else◌, ◌≡◌, Bool, String, List}
use durallm.Breaker.State.{
  CircuitBreakerState, closed, opened, half_open, forced_open, disabled, was_reset,
  CircuitBreakerConfig, CircuitBreaker, new_breaker, emit_transition,
}
use durallm.Breaker.Circuit.{Readings, force_open, force_closed, disable, reset, is_closed}
use durallm.Breaker.Calls.{
  Op, Admin, Traffic, traffic, admin, step_admin, step, run, run_traffic, run_induction,
  run_traffic_induction,
}
use durallm.Breaker.Circuit.Trail.{Trail, Accounted, emit-Accounted, step_traffic-Accounted}

-- The transitions that traffic can cause.
pub data Edge : CircuitBreakerState → CircuitBreakerState → Type 0 where
  trip : Edge closed opened
  wait : Edge opened half_open
  relapse : Edge half_open opened
  recover : Edge half_open closed

-- Those, and what an administrator can force from every state.
pub data Diagram : CircuitBreakerState → CircuitBreakerState → Type 0 where
  automatic : {s t : CircuitBreakerState} → Edge s t → Diagram s t
  forced_open_from : (s : CircuitBreakerState) → Diagram s forced_open
  closed_from : (s : CircuitBreakerState) → Diagram s closed
  disabled_from : (s : CircuitBreakerState) → Diagram s disabled

-- A run of traffic alone, however long, moves the breaker only along trip, wait, relapse and
-- recover, and its events are exactly that walk, from CLOSED to the state that the run ends in.
pub run_traffic-Trail :
    (id : String) (config : CircuitBreakerConfig) (has_store : Bool)
    (calls : List (Traffic × Readings))
    → let b = run_traffic (new_breaker id config has_store) calls in
      Trail Edge closed b.events b.state
run_traffic-Trail id config has_store calls =
    run_traffic_induction {P = Accounted Edge}
      (step_traffic-Accounted Edge trip wait relapse recover) (new_breaker id config has_store)
      calls refl

step_admin-Accounted :
    (a : Admin) (r : Readings) (b : CircuitBreaker)
    → Accounted Diagram b
    → Accounted Diagram (step_admin a r b)
unfolding step_admin force_open force_closed disable reset
step_admin-Accounted Admin.force_open r b h =
    emit-Accounted Diagram b.state forced_open _ _ _ h (forced_open_from b.state) refl
step_admin-Accounted Admin.force_closed r b h =
    emit-Accounted Diagram b.state closed _ _ _ h (closed_from b.state) refl
step_admin-Accounted Admin.disable r b h =
    emit-Accounted Diagram b.state disabled _ _ _ h (disabled_from b.state) refl
step_admin-Accounted Admin.reset r b h = reset_by b.state refl
  where
    cleared : CircuitBreaker
    cleared = record b {
      state = closed;
      opened_at = 0;
      half_open_in_flight = 0;
      half_open_successes = 0;
      metrics = Metrics.reset b.metrics;
    }

    reset_by :
        (st : CircuitBreakerState)
        → st ≡ b.state
        → Accounted Diagram
            (if is_closed st then cleared else emit_transition r.emit st closed was_reset cleared)
    reset_by closed e = subst (λ t. Trail Diagram closed b.events t) (sym e) h
    reset_by st e =
        emit-Accounted Diagram st closed r.emit was_reset cleared
          (subst (λ t. Trail Diagram closed b.events t) (sym e) h) (closed_from st) refl

step-Accounted :
    (op : Op) (r : Readings) (b : CircuitBreaker)
    → Accounted Diagram b
    → Accounted Diagram (step op r b)
unfolding step
step-Accounted (traffic t) r b h =
    step_traffic-Accounted Diagram (automatic trip) (automatic wait) (automatic relapse)
      (automatic recover) t r b h
step-Accounted (admin a) r b h = step_admin-Accounted a r b h

-- The events of any run, administration included, are a walk along the diagram from CLOSED to the
-- state that the run ends in: no change of state goes unreported.
pub run-Trail :
    (id : String) (config : CircuitBreakerConfig) (has_store : Bool) (calls : List (Op × Readings))
    → let b = run (new_breaker id config has_store) calls in Trail Diagram closed b.events b.state
run-Trail id config has_store calls =
    run_induction {P = Accounted Diagram} step-Accounted (new_breaker id config has_store) calls
      refl
