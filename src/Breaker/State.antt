-- ===== src/Breaker/State.antt =====
-- durallm/breaker/state.py, and the configuration and the fields of `CircuitBreaker` in
-- durallm/breaker/circuit_breaker.py.
use durallm.Common.{ℕ, ◌/◌, Bool, String, List, [], ◌∷◌, ◌++◌, if◌then◌else◌}
use durallm.Breaker.Metrics
use durallm.Breaker.Metrics.{SlidingWindowType, SlidingWindowMetrics, MetricsSnapshot, Rate}

-- `opened` is OPEN.
pub data CircuitBreakerState : Type 0 where
  closed opened half_open forced_open disabled metrics_only : CircuitBreakerState

-- The text of `reason`, with the numbers that it prints.
pub data Reason : Type 0 where
  remote_trip : Reason
  wait_elapsed : ℕ → Reason
  probe_timeout : Reason
  probes_succeeded : ℕ → Reason
  probe_failed : Reason
  failure_rate_reached : ℕ → ℕ → Reason
  slow_rate_reached : ℕ → ℕ → Reason
  forced_opened forced_closed was_disabled was_reset : Reason

pub record StateTransitionEvent : Type 0 where
  pub breaker_id : String
  pub from_state : CircuitBreakerState
  pub to_state : CircuitBreakerState
  pub timestamp_monotonic : ℕ
  pub reason : Reason
  pub metrics_snapshot : MetricsSnapshot

-- The thresholds are percentages.
pub record CircuitBreakerConfig : Type 0 where
  pub failure_rate_threshold : ℕ
  pub slow_call_rate_threshold : ℕ
  pub slow_call_duration_ms : ℕ
  pub minimum_number_of_calls : ℕ
  pub sliding_window_type : SlidingWindowType
  pub sliding_window_size : ℕ
  pub wait_duration_open_ms : ℕ
  pub half_open_max_calls : ℕ
  pub max_half_open_duration_ms : ℕ

-- The arguments of one `sync_breaker_state` call.
pub record Sync : Type 0 where
  pub provider : String
  pub state : CircuitBreakerState
  pub error_count : ℕ
  pub trip_timestamp : ℕ

-- `events` holds what the listeners were given and `synced` what the cluster store was, in order.
pub record CircuitBreaker : Type 0 where
  pub id : String
  pub config : CircuitBreakerConfig
  pub has_cluster_store : Bool
  pub state : CircuitBreakerState
  pub opened_at : ℕ
  pub half_open_entered_at : ℕ
  pub half_open_in_flight : ℕ
  pub half_open_successes : ℕ
  pub metrics : SlidingWindowMetrics
  pub events : List StateTransitionEvent
  pub synced : List Sync

-- The defaults of the dataclass.
abbrev pub default_config : CircuitBreakerConfig
default_config = record {
  failure_rate_threshold = 50;
  slow_call_rate_threshold = 100;
  slow_call_duration_ms = 120000;
  minimum_number_of_calls = 10;
  sliding_window_type = SlidingWindowType.count_based;
  sliding_window_size = 20;
  wait_duration_open_ms = 30000;
  half_open_max_calls = 2;
  max_half_open_duration_ms = 10000;
}

-- `CircuitBreaker.__init__`
abbrev pub new_breaker : String → CircuitBreakerConfig → Bool → CircuitBreaker
new_breaker breaker_id config has_store = record {
  id = breaker_id;
  config = config;
  has_cluster_store = has_store;
  state = closed;
  opened_at = 0;
  half_open_entered_at = 0;
  half_open_in_flight = 0;
  half_open_successes = 0;
  metrics = record {
    window_type = config.sliding_window_type;
    window_size = config.sliding_window_size;
    slow_call_duration_ms = config.slow_call_duration_ms;
    samples = [];
  };
  events = [];
  synced = [];
}

-- `int(failure_rate)`
abbrev pub whole : Rate → ℕ
whole r = r.num / r.den

-- The event that `_emit_transition` makes.
abbrev pub transition_event :
    ℕ → CircuitBreakerState → CircuitBreakerState → Reason → CircuitBreaker → StateTransitionEvent
transition_event now from_state to_state reason b = record {
  breaker_id = b.id;
  from_state = from_state;
  to_state = to_state;
  timestamp_monotonic = now;
  reason = reason;
  metrics_snapshot = (Metrics.snapshot now b.metrics).0;
}

-- `_emit_transition`. The snapshot evicts, so the metrics change. An exception of the store or of
-- a listener is caught, so nothing of it shows.
unfoldable pub emit_transition :
    ℕ → CircuitBreakerState → CircuitBreakerState → Reason → CircuitBreaker → CircuitBreaker
emit_transition now from_state to_state reason b =
    let (snap, m) = Metrics.snapshot now b.metrics in
    record b {
      metrics = m;
      events = b.events ++ transition_event now from_state to_state reason b ∷ [];
      synced =
          if b.has_cluster_store
          then b.synced
            ++ record {
              provider = b.id;
              state = to_state;
              error_count = whole snap.failure_rate;
              trip_timestamp = now;
            }
              ∷ []
          else b.synced;
    }
