-- ===== src/Tests/Breaker.antt =====
-- A breaker that trips on two failures, waits a second and admits one probe.
use durallm.Common.{
  ℕ, ◌+◌, ◌≤◌, ◌≡◌, refl, Bool, true, false, none, List, [], ◌∷◌, arith, last, if◌then◌else◌,
  string_eq,
}
use durallm.Breaker.Metrics.{SlidingWindowMetrics, CallOutcome, count_based, outcome, evict_count}
use durallm.Breaker.Metrics
use durallm.Breaker.Metrics.Window.{Completed, record_all, outcomes, record_all-eq-last}
use durallm.Breaker.State.{
  closed, opened, half_open, forced_open, CircuitBreakerConfig, CircuitBreaker, default_config,
  new_breaker, emit_transition,
}
use durallm.Breaker.Circuit.{
  Readings, record_failure, record_success, acquire_permission, check_and_update_state,
}
use durallm.Breaker.Calls.{
  Op, Traffic, traffic, admin, acquire, success, failure, observe, step_traffic, run, run_traffic,
}
use durallm.Breaker.Calls
use durallm.Breaker.Circuit.Trail.{Trail}
use durallm.Breaker.Circuit.History.{Edge, Diagram, run_traffic-Trail, run-Trail}
use durallm.Breaker.Circuit.Permits.{IsBounded, run-IsBounded}
use durallm.Breaker.Circuit.Admission.{
  grants, completions, asking, opened-grants, forced_open-grants, probe-grants, leaked-grants,
}
use durallm.Breaker.Circuit.Recovery.{
  unhealthy, window_with, trips_exactly, IsRecovered, successes, successes-IsRecovered,
}
use durallm.Breaker.Registry.{CircuitBreakerRegistry}

abbrev config : CircuitBreakerConfig
config = record default_config {
  minimum_number_of_calls = 2;
  sliding_window_size = 3;
  wait_duration_open_ms = 1000;
  half_open_max_calls = 1;
}

abbrev at : ℕ → Readings
at t = record { check = t; check_emit = t; now = t; emit = t; remote = none }

abbrev fresh : CircuitBreaker
fresh = new_breaker "groq" config false

abbrev fails : List (Traffic × Readings)
fails = (failure 10 true, at 1) ∷ (failure 10 true, at 2) ∷ []

tripped : CircuitBreaker
tripped = run_traffic fresh fails

tripped-state : (tripped.state ≡ opened) × (tripped.opened_at ≡ 2)
unfolding tripped run_traffic step_traffic record_failure check_and_update_state emit_transition
    Metrics.record_call Metrics.snapshot Metrics.evict_expired evict_count Metrics.statistics
tripped-state = (refl, refl)

run_traffic-Trail_example :
    Trail Edge closed (run_traffic fresh fails).events (run_traffic fresh fails).state
run_traffic-Trail_example = run_traffic-Trail "groq" config false fails

abbrev calls : List (Op × Readings)
calls =
    (traffic (failure 10 true), at 1)
    ∷ (admin Calls.force_open, at 2)
    ∷ (admin Calls.reset, at 3)
    ∷ []

run-Trail_example : Trail Diagram closed (run fresh calls).events (run fresh calls).state
run-Trail_example = run-Trail "groq" config false calls

run-IsBounded_example : IsBounded (run fresh calls)
run-IsBounded_example = run-IsBounded "groq" config false calls

abbrev open_breaker : CircuitBreaker
open_breaker = record fresh { state = opened; opened_at = 500 }

abbrev early : List (Traffic × Readings)
early = (acquire, at 600) ∷ (success 5, at 700) ∷ (acquire, at 1499) ∷ []

opened-grants_example :
    (grants open_breaker early ≡ 0)
    × ((run_traffic open_breaker early).state ≡ opened)
    × ((run_traffic open_breaker early).opened_at ≡ 500)
opened-grants_example = opened-grants open_breaker early refl (omega arith)

-- At the end of the wait the first call is admitted as a probe.
probe_after_wait : grants open_breaker ((acquire, at 1500) ∷ (acquire, at 1501) ∷ []) ≡ 1
unfolding grants step_traffic acquire_permission check_and_update_state emit_transition
probe_after_wait = refl

abbrev locked : CircuitBreaker
locked = record fresh { state = forced_open }

forced_open-grants_example :
    (grants locked early ≡ 0) × ((run_traffic locked early).state ≡ forced_open)
forced_open-grants_example = forced_open-grants locked early refl

abbrev probing : CircuitBreaker
probing = record fresh { state = half_open; half_open_entered_at = 1500 }

abbrev probes : List (Traffic × Readings)
probes =
    (acquire, at 1500) ∷ (acquire, at 1501) ∷ (failure 5 false, at 1502) ∷ (acquire, at 1503) ∷ []

probe-grants_example : grants probing probes + 0 ≤ 1 + completions probes
unfolding step_traffic acquire_permission check_and_update_state record_failure
probe-grants_example =
    probe-grants probing probes (refl, (refl, (refl, (refl, refl)))) (omega arith)

abbrev leaked : CircuitBreaker
leaked = record probing { half_open_in_flight = 1 }

abbrev asks : List (Bool × Readings)
asks = (true, at 20000) ∷ (false, at 900000) ∷ (true, at 9000000) ∷ []

leaked-grants_example :
    (grants leaked (asking asks) ≡ 0) × (run_traffic leaked (asking asks) ≡ leaked)
leaked-grants_example = leaked-grants leaked asks refl (omega arith) (omega arith)

trips_exactly_example :
    ((record_success 10 (at 5) fresh).state
      ≡ (if unhealthy fresh (window_with fresh 10 (at 5) true true) then opened else closed))
    × ((record_failure 10 true (at 5) fresh).state
        ≡ (if unhealthy fresh (window_with fresh 10 (at 5) false true) then opened else closed))
    × ((record_failure 10 false (at 5) fresh).state ≡ closed)
trips_exactly_example = trips_exactly fresh 10 (at 5) refl refl refl (omega arith)

abbrev one_success : List (ℕ × Readings)
one_success = (30, at 1600) ∷ []

successes-IsRecovered_example : IsRecovered (run_traffic leaked (successes one_success))
successes-IsRecovered_example =
    successes-IsRecovered leaked one_success refl (omega arith) refl (omega arith)

abbrev window : SlidingWindowMetrics
window = fresh.metrics

abbrev done : ℕ → Completed
done t = record { success = true; duration_ms = 1; now = t; poisons = true }

abbrev four : List Completed
four = done 1 ∷ done 2 ∷ done 3 ∷ done 4 ∷ []

record_all-eq-last_example : (record_all window four).samples ≡ last 3 (outcomes window four)
record_all-eq-last_example = record_all-eq-last window four refl refl

abbrev samples : List CallOutcome
samples = outcome 9 true 1 1000 true ∷ outcome 9 true 1 2500 true ∷ []

abbrev registry : CircuitBreakerRegistry
registry = record { default_config = config; breakers = ("groq", fresh) ∷ [] }
