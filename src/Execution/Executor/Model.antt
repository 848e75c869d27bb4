-- ===== src/Execution/Executor/Model.antt =====
-- The loop of `GatewayExecutor.execute` in durallm/execution/executor.py: its variables, what one
-- round of it reads, and the calls that it makes on the other components, which are kept in a list.
-- Texts of errors are in lower case.
use durallm.Common.{ℕ, ◌++◌, Bool, true, false, Option, none, String, List, [], ◌∷◌, if◌then◌else◌}
use durallm.Common.Dict.{Dict}
use durallm.Classifier.Model.{FailoverReason, Delay, FailureClassification, ErrorObject}
use durallm.Routing.Selection.{Endpoint, Strategy, View}
use durallm.Execution.Attempts
use durallm.Execution.Attempts.{AttemptLedger, Limits, new_attempt_ledger}
use durallm.Execution.Deadline.{Deadline}

-- `RetryPolicy`, in milliseconds
pub record RetryPolicy : Type 0 where
  pub base_backoff_ms : ℕ
  pub max_backoff_ms : ℕ
  pub jitter : Bool

-- The arguments of `execute` and what the executor was built with.
pub record Setup : Type 0 where
  pub endpoints : List Endpoint  -- of the pool
  pub strategy : Strategy
  pub deadline : Deadline
  pub retry : RetryPolicy
  pub estimated_tokens : ℕ
  pub has_budget_limit : Bool

-- `last_failure_reason`
pub data Cause : Type 0 where
  rate_limit_rollover_retry budget_reservation_denied : Cause
  failed_with : FailoverReason → Cause

-- How the end of an attempt is stored.
pub data AttemptStatus : Type 0 where
  transport_error succeeded blocked_indeterminate_operation key_rotated_429 failed : AttemptStatus

-- A call on another component. An attempt and its reservation are named by the attempt's id.
pub data Call : Type 0 where
  waits : Delay → Call
  lane_available : String → Call
  lane_unavailable : String → FailoverReason → Delay → Call
  reserves : String → ℕ → Call
  releases : String → Call
  settles : String → ℕ → Call
  acquires_permission : String → Call
  breaker_success : String → Call
  breaker_failure : String → FailureClassification → Call
  prepares : String → Call
  finishes : String → AttemptStatus → Call
  dispatches : String → Call
  health_success : String → Call
  health_failure : String → Option ℕ → Option Delay → Option Delay → Bool → Call
  tool_outcome : String → Bool → Call
  registers_tool : String → Call
  replays_tool : String → Call
  tool_indeterminate : String → Call
  tool_failed : String → Call
  tool_validated : String → Call
  route_success : String → Call
  warm_cache : String → Call
  marks_cooldown : String → Delay → Call
  marks_quota_exhausted : String → Delay → Call
  marks_provider_exhausted : String → Delay → Call
  records_lockout : String → String → Delay → Call
  marks_dead : String → Call
  marks_deprecated : String → Call
  key_cooldown : String → Option Delay → Call
  plans_failover : String → String → Call

-- An entry of the ledger's `attempts`
pub record AttemptRecord : Type 0 where
  pub endpoint_id : String
  pub failure : Option FailureClassification

-- A part of the context window
pub record Ratio : Type 0 where
  pub num : ℕ
  pub den : ℕ

-- The variables of the loop. The exclusions and the calls are newest first.
pub record Progress : Type 0 where
  pub ledger : AttemptLedger
  pub attempts : List AttemptRecord
  pub excluded_endpoints : List String
  pub last_failure_reason : Option Cause
  pub last_endpoint : Option String
  pub fallback_marked : Bool
  pub window_shrink : Dict String Ratio
  pub output_cap_retried : List String
  pub rate_limit_waits : ℕ
  pub max_output_tokens : Option ℕ  -- of the request
  pub calls : List Call

abbrev pub new_progress : Limits → Option ℕ → Progress
new_progress policy max_output_tokens = record {
  ledger = new_attempt_ledger policy;
  attempts = [];
  excluded_endpoints = [];
  last_failure_reason = none;
  last_endpoint = none;
  fallback_marked = false;
  window_shrink = [];
  output_cap_retried = [];
  rate_limit_waits = 0;
  max_output_tokens = max_output_tokens;
  calls = [];
}

pub record ContextBudget : Type 0 where
  pub model_context_window : ℕ
  pub desired_output_tokens : ℕ
  pub safety_margin_tokens : ℕ

-- What the tool ledger and the validator answer for one tool call of a response.
pub record ToolCheck : Type 0 where
  pub ledger_call_id : String
  pub has_receipt : Bool
  pub is_indeterminate : Bool
  pub is_executable : Bool

-- What came of a response of status 200: it could not be read, it failed `check_sanity`, or it has
-- these tool calls and this cost.
pub data Answer : Type 0 where
  unreadable : ErrorObject → Answer
  insane : Bool → String → Answer
  readable : List ToolCheck → ℕ → Answer

-- What `adapter.execute` does.
pub data Reply : Type 0 where
  crashes : ErrorObject → Reply
  refused : ℕ → ErrorObject → Option Delay → Reply
  answered : Answer → Reply

-- What one round of the loop reads: the clock at each of its readings, and the answers of the
-- components that it calls.
pub record Turn : Type 0 where
  pub guard_time : ℕ
  pub check_time : ℕ
  pub wait_time : ℕ
  pub dispatch_time : ℕ
  pub backoff_time : ℕ
  pub view : View
  pub compacts : ContextBudget → Option Bool  -- none for an overflow, else `was_compacted`
  pub attempt_id : String
  pub key_id : Option String
  pub has_alternative_key : Bool
  pub reserved_amount : ℕ
  pub is_reserved : Bool
  pub is_admitted : Bool
  pub reply : Reply
  pub until_midnight : Delay
  pub jittered : ℕ → ℕ → ℕ  -- `random.uniform`

pub data ExecutorError : Type 0 where
  no_healthy_route deadline_exceeded upstream_error indeterminate_operation : ExecutorError
  non_recoverable_failure : ExecutorError

-- How a part of a round ends: with a value for the part after it, or the round ends there, by
-- `continue`, `return` or `raise`.
pub data Flow (A : Type 0) : Type 0 where
  goes_on : A → Flow A
  continues : Progress → Flow A
  responds : Progress → Flow A
  raises : ExecutorError → Progress → Flow A

-- A part that ends the round
abbrev pub End : Type 0
End = Flow ⊥

infixl 5 ◌>>=◌
abbrev pub ◌>>=◌ : {A B : Type 0} → Flow A → (A → Flow B) → Flow B
goes_on a >>= f = f a
continues s >>= f = continues s
responds s >>= f = responds s
raises e s >>= f = raises e s

abbrev pub emit : Call → Progress → Progress
emit c s = record s { calls = c ∷ s.calls }

abbrev pub emit_if : Bool → Call → Progress → Progress
emit_if test c s = record s { calls = if test then c ∷ s.calls else s.calls }

-- The calls in their order, pushed onto a list that is newest first.
unfoldable pub push_all : List Call → List Call → List Call
push_all [] calls = calls
push_all (c ∷ cs) calls = push_all cs (c ∷ calls)

abbrev pub emit_all : List Call → Progress → Progress
emit_all cs s = record s { calls = push_all cs s.calls }

abbrev pub exclude : String → Progress → Progress
exclude id s = record s { excluded_endpoints = id ∷ s.excluded_endpoints }

-- `ledger.record_attempt`
abbrev pub record_attempt : String → Option FailureClassification → Progress → Progress
record_attempt id failure s = record s {
  ledger = Attempts.record_attempt id s.ledger;
  attempts = s.attempts ++ record { endpoint_id = id; failure = failure } ∷ [];
}

-- The reason is one of a rate limit.
abbrev pub is_rate_limit : FailoverReason → Bool
is_rate_limit FailoverReason.rate_limit = true
is_rate_limit FailoverReason.upstream_rate_limit = true
is_rate_limit _ = false
