-- ===== src/Tests/Executor.antt =====
-- Two endpoints: the first one's key is rotated, and then the request succeeds.
use durallm.Common.{
  ℕ, zero, suc, ◌≡◌, refl, Bool, true, false, Option, none, some, String, List, [], ◌∷◌, arith,
}
use durallm.Breaker.State.{closed}
use durallm.Classifier.Model.{ErrorObject}
use durallm.Routing.Selection.{
  ModelProfile, Endpoint, View, balanced, Selects, select_candidate, select_candidate-Selects,
}
use durallm.Execution.Attempts
use durallm.Execution.Deadline.{Deadline}
use durallm.Execution.Executor.Model.{
  Setup, Turn, Progress, Reply, refused, answered, readable, new_progress,
}
use durallm.Execution.Executor.Loop.{Outcome, returned, failed, unfinished, execute}
use durallm.Execution.Executor.Ends.{EndsWithin, execute-EndsWithin}
use durallm.Execution.Executor.Kinds.{replay}
use durallm.Execution.Executor.Balance.{Settled}
use durallm.Execution.Executor.Accounts.{variables, execute-Settled}

abbrev profile : ModelProfile
profile = record { context_window = 65536; max_output_tokens = 4096 }

abbrev endpoint : String → Endpoint
endpoint id = record {
  id = id;
  provider = "groq";
  model = "m";
  resource_key = id;
  lane_key = some id;
  priority = 1;
  profile = profile;
}

abbrev endpoints : List Endpoint
endpoints = endpoint "a" ∷ endpoint "b" ∷ []

abbrev view : View
view = record {
  is_dead = λ e. false;
  is_quota_exhausted = λ e. false;
  matches_hard_constraints = λ e. true;
  compatible = λ e. true;
  lane_available = λ l. true;
  breaker_state = λ k. closed;
  latency_score = λ e. 1;
  cost_score = λ e. 1;
  health_score = λ e. 1;
  final_score = λ e. 1;
  is_large_context = false;
  round_robin_index = 0;
}

abbrev setup : Setup
setup = record {
  endpoints = endpoints;
  strategy = balanced;
  deadline = record {
    total_timeout_ms = 300000;
    connect_timeout_ms = 10000;
    tls_timeout_ms = 10000;
    ttft_timeout_ms = 60000;
    idle_stream_timeout_ms = 35000;
    per_attempt_timeout_ms = 120000;
    start_time_monotonic = 0;
  };
  retry = record { base_backoff_ms = 200; max_backoff_ms = 3000; jitter = true };
  estimated_tokens = 100;
  has_budget_limit = true;
}

abbrev limited_error : ErrorObject
limited_error = record {
  status_code = none;
  code = none;
  response_status_code = none;
  text = "slow down";
  body = none;
  type_name = "str";
}

abbrev turn : Reply → Turn
turn reply = record {
  guard_time = 1;
  check_time = 1;
  wait_time = 1;
  dispatch_time = 1;
  backoff_time = 1;
  view = view;
  compacts = λ b. some false;
  attempt_id = "r";
  key_id = some "K:0";
  has_alternative_key = true;
  reserved_amount = 5;
  is_reserved = true;
  is_admitted = true;
  reply = reply;
  until_midnight = record { num = 3600; den = 1 };
  jittered = λ low high. low;
}

abbrev limited : Turn
limited = turn (refused 429 limited_error none)

abbrev answer : Turn
answer = turn (answered (readable [] 3))

abbrev turns : List Turn
turns =
    limited ∷ answer ∷ answer ∷ answer ∷ answer ∷ answer ∷ answer ∷ answer ∷ answer ∷ answer
    ∷ answer ∷ answer ∷ answer ∷ answer ∷ []

abbrev start : Progress
start =
    new_progress
      (record { max_total_attempts = 2; max_attempts_same_endpoint = 2; max_fallback_hops = 2 })
      none

execute-EndsWithin_example : EndsWithin 2 (execute setup turns start)
execute-EndsWithin_example = execute-EndsWithin setup turns start (omega arith) (omega arith)

execute-Settled_example : Settled (variables (execute setup turns start))
unfolding replay
execute-Settled_example = execute-Settled setup turns start refl

select_candidate-Selects_example :
    Selects view ("a" ∷ []) endpoints (select_candidate balanced endpoints view ("a" ∷ []))
select_candidate-Selects_example = select_candidate-Selects balanced endpoints view ("a" ∷ [])

second_only_lem : select_candidate balanced endpoints view ("a" ∷ []) ≡ some (endpoint "b")
unfolding select_candidate
second_only_lem = refl

abbrev is_returned : Outcome → Bool
is_returned (returned s) = true
is_returned (failed e s) = false
is_returned (unfinished s) = false

answered_lem : is_returned (execute setup (answer ∷ []) start) ≡ true
unfolding execute durallm.Execution.Deadline.is_expired select_candidate
    Attempts.validate_next_candidate durallm.Common.Dict.lookup
    durallm.Execution.Deadline.per_attempt_timeout_for_provider
answered_lem = refl
