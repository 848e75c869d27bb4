-- ===== src/Breaker/Metrics.antt =====
-- durallm/breaker/metrics.py: the sliding window of call outcomes and its statistics. Times and
-- durations are in milliseconds. A rate is the exact fraction that the source computes in floats.
pub mod Window
use durallm.Common.{
  ℕ, ◌+◌, ◌*◌, Bool, not, ◌&&◌, List, [], ◌∷◌, ◌++◌, length, ltb, leb, if◌then◌else◌, count_by,
}

pub data SlidingWindowType : Type 0 where
  count_based time_based : SlidingWindowType

pub record CallOutcome : Type 0 where
  pub success : Bool
  pub duration_ms : ℕ
  pub timestamp_monotonic : ℕ
  pub is_slow : Bool
  pub poisons_health : Bool

pub record SlidingWindowMetrics : Type 0 where
  pub window_type : SlidingWindowType
  pub window_size : ℕ  -- calls, or seconds
  pub slow_call_duration_ms : ℕ
  pub samples : List CallOutcome  -- oldest first

-- A percentage `num / den`.
pub record Rate : Type 0 where
  pub num : ℕ
  pub den : ℕ

pub record MetricsSnapshot : Type 0 where
  pub total_calls : ℕ
  pub success_calls : ℕ
  pub failed_calls : ℕ
  pub slow_calls : ℕ
  pub failure_rate : Rate
  pub slow_call_rate : Rate

-- `while len(samples) > window_size: samples.popleft()`
unfoldable pub evict_count : ℕ → List CallOutcome → List CallOutcome
evict_count size [] = []
evict_count size (s ∷ ss) = if ltb size (length (s ∷ ss)) then evict_count size ss else s ∷ ss

-- `while samples and samples[0].timestamp_monotonic < now - window_size: samples.popleft()`
unfoldable pub evict_time : ℕ → ℕ → List CallOutcome → List CallOutcome
evict_time size now [] = []
evict_time size now (s ∷ ss) =
    if ltb (s.timestamp_monotonic + size * 1000) now then evict_time size now ss else s ∷ ss

evict_by : SlidingWindowType → ℕ → ℕ → List CallOutcome → List CallOutcome
evict_by count_based size now ss = evict_count size ss
evict_by time_based size now ss = evict_time size now ss

unfoldable pub evict_expired : ℕ → SlidingWindowMetrics → SlidingWindowMetrics
unfolding evict_by
evict_expired now m = record m { samples = evict_by m.window_type m.window_size now m.samples }

unfoldable pub reset : SlidingWindowMetrics → SlidingWindowMetrics
reset m = record m { samples = [] }

abbrev pub outcome : ℕ → Bool → ℕ → ℕ → Bool → CallOutcome
outcome slow_ms success duration_ms now poisons = record {
  success = success;
  duration_ms = duration_ms;
  timestamp_monotonic = now;
  is_slow = leb slow_ms duration_ms;
  poisons_health = poisons;
}

unfoldable pub record_call : Bool → ℕ → ℕ → Bool → SlidingWindowMetrics → SlidingWindowMetrics
record_call success duration_ms now poisons m = evict_expired now (record m {
  samples = m.samples ++ outcome m.slow_call_duration_ms success duration_ms now poisons ∷ [];
})

-- The three counters of the loop in `snapshot`.
abbrev pub is_failed : CallOutcome → Bool
is_failed s = not s.success && s.poisons_health

abbrev pub is_success : CallOutcome → Bool
is_success s = s.success

abbrev pub is_slow_call : CallOutcome → Bool
is_slow_call s = s.is_slow

abbrev pub no_rate : Rate
no_rate = record { num = 0; den = 1 }

abbrev pub rate : ℕ → ℕ → Rate
rate count total = record { num = count * 100; den = total }

unfoldable pub statistics : List CallOutcome → MetricsSnapshot
statistics [] = record {
  total_calls = 0;
  success_calls = 0;
  failed_calls = 0;
  slow_calls = 0;
  failure_rate = no_rate;
  slow_call_rate = no_rate;
}
statistics (s ∷ ss) =
    let total = length (s ∷ ss) in
    let failed = count_by is_failed (s ∷ ss) in
    let slow = count_by is_slow_call (s ∷ ss) in
    record {
      total_calls = total;
      success_calls = count_by is_success (s ∷ ss);
      failed_calls = failed;
      slow_calls = slow;
      failure_rate = rate failed total;
      slow_call_rate = rate slow total;
    }

-- `snapshot` evicts before it counts, so it returns the metrics too.
unfoldable pub snapshot : ℕ → SlidingWindowMetrics → MetricsSnapshot × SlidingWindowMetrics
snapshot now m = let m' = evict_expired now m in (statistics m'.samples, m')
