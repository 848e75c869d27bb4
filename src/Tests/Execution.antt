-- ===== src/Tests/Execution.antt =====
-- The default deadline, 500 milliseconds before its end and at its start.
use durallm.Common.{◌+◌, ◌≤◌, ◌≡◌, refl, false, leb, max, arith}
use durallm.Common.Fallible.{returns}
use durallm.Execution.Deadline.{
  Deadline, Promises, IsClipped, remaining_ms, transport_timeouts, transport_timeouts-IsClipped,
  per_attempt_timeout_for_provider, per_attempt_timeout_le, check_deadline, is_expired, elapsed_ms,
  provider_target, scaled_target,
}

abbrev deadline : Deadline
deadline = record {
  total_timeout_ms = 300000;
  connect_timeout_ms = 10000;
  tls_timeout_ms = 10000;
  ttft_timeout_ms = 60000;
  idle_stream_timeout_ms = 35000;
  per_attempt_timeout_ms = 120000;
  start_time_monotonic = 1000;
}

transport_timeouts-IsClipped_example :
    Promises
      (leb (1000 + 300000) (max 300500 1000))
      (λ t. IsClipped (remaining_ms deadline 300501) t × (false ≡ false → t.total ≤ max 1 120000))
      (transport_timeouts deadline false 300500 300501)
transport_timeouts-IsClipped_example =
    transport_timeouts-IsClipped deadline false 300500 300501 (record {
      has_connect = omega arith;
      has_tls = omega arith;
      has_ttft = omega arith;
      has_idle = omega arith;
    })

per_attempt_timeout_le_example :
    Promises
      (leb (1000 + 300000) (max 1000 1000))
      (λ ms. (ms ≤ max 100 (remaining_ms deadline 1001)) × (ms ≤ max 90000 120000))
      (per_attempt_timeout_for_provider deadline "openai" 9000 1000 1001)
per_attempt_timeout_le_example = per_attempt_timeout_le deadline "openai" 9000 1000 1001

-- A short prompt has two minutes, and a long one, which is to have more time, has less.
short_prompt_lem :
    per_attempt_timeout_for_provider deadline "openai" 8000 1000 1001 ≡ returns 120000
unfolding per_attempt_timeout_for_provider check_deadline is_expired remaining_ms elapsed_ms
    provider_target scaled_target
short_prompt_lem = refl

long_prompt_lem : per_attempt_timeout_for_provider deadline "openai" 9000 1000 1001 ≡ returns 75000
unfolding per_attempt_timeout_for_provider check_deadline is_expired remaining_ms elapsed_ms
    provider_target scaled_target
long_prompt_lem = refl
