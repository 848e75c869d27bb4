-- ===== src/Classifier/Model.antt =====
-- durallm/models.py: the classification of a failure, and what the classifier reads of an error.
use durallm.Common.{ℕ, zero, suc, Bool, true, false, Option, none, some, String}

pub data FailureCategory : Type 0 where
  infrastructure rate_limited request_incompatibility semantic_agent_failure client_fault
        unknown_category :
      FailureCategory

pub data FailoverReason : Type 0 where
  rate_limit upstream_rate_limit billing auth model_not_found overloaded server_error timeout :
      FailoverReason
  ssl_cert_verification payload_too_large output_cap_exceeded context_overflow waf_blocked :
      FailoverReason
  connection_refused schema_incompatible malformed_tool_call empty_completion : FailoverReason
  client_error unknown : FailoverReason

-- A number of seconds as a fraction, such as 514 / 100 for `5.14`.
pub record Delay : Type 0 where
  pub num : ℕ
  pub den : ℕ

-- The keys that `details` may hold.
pub data Details : Type 0 where
  no_details : Details
  token_limit : ℕ → Details
  account_wide : Delay → Details

pub record FailureClassification : Type 0 where
  pub category : FailureCategory
  pub reason : FailoverReason
  pub should_fallback : Bool
  pub retryable : Bool
  pub poisons_health : Bool
  pub is_permanent : Bool
  pub status_code : Option ℕ
  pub retry_after : Option Delay
  pub message : String
  pub details : Details

-- The error object: the attributes that `classify_failure` looks for, its text and its body in lower
-- case, and the lower case name of its class.
pub record ErrorObject : Type 0 where
  pub status_code : Option ℕ
  pub code : Option ℕ
  pub response_status_code : Option ℕ
  pub text : String
  pub body : Option String
  pub type_name : String

-- What the rules are applied to: the status code that was found, the message, the delay of the
-- `Retry-After` header, and the time left until midnight.
pub record Failure : Type 0 where
  pub code : Option ℕ
  pub msg : String
  pub type_name : String
  pub retry_after : Option Delay
  pub until_midnight : Delay

-- `a` if it is there, and else `b`.
abbrev pub or_else {ℓ} : {A : Type ℓ} → Option A → Option A → Option A
or_else none b = b
or_else (some a) b = some a

-- `code or default`: 0 counts as missing.
abbrev pub code_or : Option ℕ → ℕ → ℕ
code_or none default = default
code_or (some zero) default = default
code_or (some (suc n)) default = suc n

-- `x if test else None`
abbrev pub given {ℓ} : {A : Type ℓ} → Bool → A → Option A
given true a = some a
given false a = none
