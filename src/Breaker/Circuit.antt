-- ===== src/Breaker/Circuit.antt =====
-- The methods of `CircuitBreaker` in durallm/breaker/circuit_breaker.py. Each runs under the lock
-- and reads the clock several times; `Readings` holds what those reads return.
pub mod Trail
pub mod History
pub mod Permits
pub mod Recovery
pub mod Admission
use durallm.Common.{
  ℕ, ◌+◌, ◌-◌, ◌*◌, Bool, true, false, ◌&&◌, Option, none, some, ltb, leb, nat_beq, if◌then◌else◌,
}
use durallm.Breaker.Metrics
use durallm.Breaker.Metrics.{MetricsSnapshot, Rate}
use durallm.Breaker.State.{
  CircuitBreakerState, closed, opened, half_open, forced_open, disabled, metrics_only, Reason,
  remote_trip, wait_elapsed, probe_timeout, probes_succeeded, probe_failed, failure_rate_reached,
  slow_rate_reached, forced_opened, forced_closed, was_disabled, was_reset, CircuitBreaker,
  emit_transition,
}

-- What the environment answers in one call of a method: the clock in `_check_and_update_state`, in
-- the `_emit_transition` under it, in the method itself and in its own `_emit_transition`, and the
-- state that the cluster store reports (`none`: no record, or the read failed).
pub record Readings : Type 0 where
  pub check : ℕ
  pub check_emit : ℕ
  pub now : ℕ
  pub emit : ℕ
  pub remote : Option CircuitBreakerState

remote_tripped : Bool → Option CircuitBreakerState → Bool
remote_tripped true (some opened) = true
remote_tripped _ _ = false

check_closed : Readings → CircuitBreaker → CircuitBreaker
unfolding remote_tripped
check_closed r b =
    if remote_tripped b.has_cluster_store r.remote
    then emit_transition r.check_emit closed opened remote_trip
        (record b { state = opened; opened_at = r.check })
    else b

check_opened : Readings → CircuitBreaker → CircuitBreaker
check_opened r b =
    if leb (b.opened_at + b.config.wait_duration_open_ms) r.check
    then emit_transition r.check_emit opened half_open (wait_elapsed b.config.wait_duration_open_ms)
        (record b {
          state = half_open;
          half_open_entered_at = r.check;
          half_open_in_flight = 0;
          half_open_successes = 0;
        })
    else b

check_half_open : Readings → CircuitBreaker → CircuitBreaker
check_half_open r b =
    if ltb (b.half_open_entered_at + b.config.max_half_open_duration_ms) r.check
      && nat_beq b.half_open_in_flight 0
    then emit_transition r.check_emit half_open opened probe_timeout
        (record b { state = opened; opened_at = r.check })
    else b

check_by : CircuitBreakerState → Readings → CircuitBreaker → CircuitBreaker
unfolding check_closed check_opened check_half_open
check_by closed r b = check_closed r b
check_by opened r b = check_opened r b
check_by half_open r b = check_half_open r b
check_by _ r b = b

-- `_check_and_update_state`, which is also what reading the `state` property does
unfoldable pub check_and_update_state : Readings → CircuitBreaker → CircuitBreaker
unfolding check_by
check_and_update_state r b = check_by b.state r b

-- What `acquire_permission` returns or raises.
pub data Permission : Type 0 where
  granted : Permission
  breaker_forced_open : Permission
  breaker_open : ℕ → Permission
  probe_admission_denied : Permission

-- `max(0, opened_at + wait - now)`
abbrev pub remaining_wait : ℕ → CircuitBreaker → ℕ
remaining_wait now b = b.opened_at + b.config.wait_duration_open_ms - now

admit : CircuitBreakerState → ℕ → CircuitBreaker → Permission × CircuitBreaker
admit forced_open now b = (breaker_forced_open, b)
admit disabled now b = (granted, b)
admit metrics_only now b = (granted, b)
admit closed now b = (granted, b)
admit opened now b = (breaker_open (remaining_wait now b), b)
admit half_open now b =
    if leb b.config.half_open_max_calls b.half_open_in_flight
    then (probe_admission_denied, b)
    else (granted, record b { half_open_in_flight = b.half_open_in_flight + 1 })

unfoldable pub acquire_permission : Readings → CircuitBreaker → Permission × CircuitBreaker
unfolding admit
acquire_permission r b = let b' = check_and_update_state r b in admit b'.state r.now b'

-- `rate >= threshold`
abbrev pub reaches : Rate → ℕ → Bool
reaches x threshold = leb (threshold * x.den) x.num

trip_reason : MetricsSnapshot → CircuitBreaker → Option Reason
trip_reason snap b =
    if reaches snap.failure_rate b.config.failure_rate_threshold
    then some (failure_rate_reached snap.failed_calls snap.total_calls)
    else if reaches snap.slow_call_rate b.config.slow_call_rate_threshold
    then some (slow_rate_reached snap.slow_calls snap.total_calls)
    else none

trip : Readings → Option Reason → CircuitBreaker → CircuitBreaker
trip r none b = b
trip r (some reason) b =
    emit_transition r.emit closed opened reason (record b { state = opened; opened_at = r.now })

-- `_evaluate_closed_thresholds`, called only when the state is CLOSED
evaluate_closed_thresholds : Readings → CircuitBreaker → CircuitBreaker
unfolding trip_reason trip
evaluate_closed_thresholds r b =
    let (snap, m) = Metrics.snapshot r.now b.metrics in
    let b' = record b { metrics = m } in
    if ltb snap.total_calls b.config.minimum_number_of_calls
    then b'
    else trip r (trip_reason snap b') b'

abbrev record_outcome : Bool → ℕ → Bool → Readings → CircuitBreaker → CircuitBreaker
record_outcome success duration_ms poisons r b = record b {
  metrics = Metrics.record_call success duration_ms r.now poisons b.metrics;
}

-- The probe branch of `record_success`. The reason is made after the counter was reset.
probe_success : Readings → CircuitBreaker → CircuitBreaker
probe_success r b =
    let done = b.half_open_successes + 1 in
    let b' = record b {
      half_open_in_flight = b.half_open_in_flight - 1;
      half_open_successes = done;
    } in
    if leb b.config.half_open_max_calls done
    then (let b'' = record b' {
      state = closed;
      metrics = Metrics.reset b.metrics;
      half_open_in_flight = 0;
      half_open_successes = 0;
    } in
        emit_transition r.emit half_open closed (probes_succeeded b''.half_open_successes) b'')
    else b'

success_by : CircuitBreakerState → ℕ → Readings → CircuitBreaker → CircuitBreaker
unfolding probe_success evaluate_closed_thresholds
success_by half_open duration_ms r b = probe_success r b
success_by closed duration_ms r b =
    evaluate_closed_thresholds r (record_outcome true duration_ms true r b)
success_by _ duration_ms r b = record_outcome true duration_ms true r b

unfoldable pub record_success : ℕ → Readings → CircuitBreaker → CircuitBreaker
unfolding success_by
record_success duration_ms r b =
    let b' = check_and_update_state r b in success_by b'.state duration_ms r b'

-- The probe branch of `record_failure`.
probe_failure : Bool → Readings → CircuitBreaker → CircuitBreaker
probe_failure poisons r b =
    if poisons
    then emit_transition r.emit half_open opened probe_failed (record b {
      state = opened;
      opened_at = r.now;
      half_open_in_flight = 0;
      half_open_successes = 0;
    })
    else record b { half_open_in_flight = b.half_open_in_flight - 1 }

failure_by : CircuitBreakerState → Bool → ℕ → Readings → CircuitBreaker → CircuitBreaker
unfolding probe_failure evaluate_closed_thresholds
failure_by half_open poisons duration_ms r b = probe_failure poisons r b
failure_by closed poisons duration_ms r b =
    let b' = record_outcome false duration_ms poisons r b in
    if poisons then evaluate_closed_thresholds r b' else b'
failure_by _ poisons duration_ms r b = record_outcome false duration_ms poisons r b

-- `poisons` is the classification's `poisons_health`, or true where there is none.
unfoldable pub record_failure : ℕ → Bool → Readings → CircuitBreaker → CircuitBreaker
unfolding failure_by
record_failure duration_ms poisons r b =
    let b' = check_and_update_state r b in failure_by b'.state poisons duration_ms r b'

unfoldable pub force_open : Readings → CircuitBreaker → CircuitBreaker
force_open r b =
    emit_transition r.emit b.state forced_open forced_opened (record b { state = forced_open })

unfoldable pub force_closed : Readings → CircuitBreaker → CircuitBreaker
force_closed r b =
    emit_transition r.emit b.state closed forced_closed
      (record b { state = closed; metrics = Metrics.reset b.metrics })

unfoldable pub disable : Readings → CircuitBreaker → CircuitBreaker
disable r b = emit_transition r.emit b.state disabled was_disabled (record b { state = disabled })

is_closed : CircuitBreakerState → Bool
is_closed closed = true
is_closed _ = false

unfoldable pub reset : Readings → CircuitBreaker → CircuitBreaker
unfolding is_closed
reset r b =
    let b' = record b {
      state = closed;
      opened_at = 0;
      half_open_in_flight = 0;
      half_open_successes = 0;
      metrics = Metrics.reset b.metrics;
    } in
    if is_closed b.state then b' else emit_transition r.emit b.state closed was_reset b'
