-- ===== src/Classifier/Rules.antt =====
-- `classify_failure` of durallm/classifier.py: its tests in their order, each a rule that answers or
-- leaves the failure to the next.
use Prim.Native.String.{◌++◌}
use durallm.Common.{
  ℕ, zero, suc, Bool, true, false, not, ◌&&◌, ◌||◌, Option, none, some, String, List, [], ◌∷◌, leb,
  ltb, nat_beq, any, if◌then◌else◌,
}
use durallm.Classifier.Model.{
  FailureCategory, infrastructure, rate_limited, request_incompatibility, semantic_agent_failure,
  client_fault, unknown_category, FailoverReason, rate_limit, upstream_rate_limit, billing, auth,
  model_not_found, overloaded, server_error, timeout, ssl_cert_verification, payload_too_large,
  output_cap_exceeded, waf_blocked, connection_refused, schema_incompatible, malformed_tool_call,
  empty_completion, client_error, unknown, Delay, Details, no_details, token_limit, account_wide,
  FailureClassification, ErrorObject, Failure, or_else, code_or, given,
}
use durallm.Classifier.Phrases
use durallm.Classifier.Phrases.{contains, mentions}
use durallm.Classifier.Numbers.{
  parse_input_tpm_limit, limit_and_requested, parse_retry_after_from_body, wait_in_message,
}

-- `code in codes`
abbrev pub is_code : Option ℕ → List ℕ → Bool
is_code none codes = false
is_code (some n) codes = any (nat_beq n) codes

abbrev pub is_missing : Option ℕ → Bool
is_missing none = true
is_missing (some n) = false

-- A classification with the defaults of the dataclass; every rule allows fallback.
abbrev pub outcome :
    FailureCategory → FailoverReason → Bool → Bool → Option ℕ → Failure → FailureClassification
outcome category reason retryable poisons_health code f = record {
  category = category;
  reason = reason;
  should_fallback = true;
  retryable = retryable;
  poisons_health = poisons_health;
  is_permanent = false;
  status_code = code;
  retry_after = none;
  message = f.msg;
  details = no_details;
}

abbrev pub Rule : Type 0
Rule = Failure → Option FailureClassification

unfoldable pub ssl_rule : Rule
ssl_rule f =
    given (mentions Phrases.ssl_patterns f.msg || contains "sslerror" f.type_name)
      (outcome infrastructure ssl_cert_verification false true f.code f)

abbrev pub refusals : List String
refusals = "connection refused" ∷ "errno 61" ∷ "errno 111" ∷ []

unfoldable pub refused_rule : Rule
refused_rule f =
    given (mentions refusals f.msg)
      (outcome infrastructure connection_refused false true (some 599) f)

unfoldable pub output_cap_rule : Rule
output_cap_rule f =
    given
      ((is_code f.code (400 ∷ 429 ∷ []) || is_missing f.code)
        && mentions Phrases.output_cap_patterns f.msg)
      (outcome request_incompatibility output_cap_exceeded true false (some (code_or f.code 400)) f)

abbrev pub empties : List String
empties = "empty response body" ∷ "empty completion" ∷ []

unfoldable pub empty_rule : Rule
empty_rule f =
    given (mentions empties f.msg)
      (outcome semantic_agent_failure empty_completion true false (some (code_or f.code 502)) f)

-- `m_req and req_val > limit_val`
abbrev pub over_limit : Option (ℕ × ℕ) → Bool
over_limit none = false
over_limit (some (limit_val, req_val)) = ltb limit_val req_val

unfoldable pub is_oversized_tpm : String → Bool
is_oversized_tpm msg =
    over_limit (limit_and_requested msg)
    || contains "request too large" msg
      && (contains "tokens per minute" msg
          || contains "tpm" msg
          || not (is_missing (parse_input_tpm_limit msg)))

-- `{"token_limit": limit} if limit else None`
abbrev pub limit_details : Option ℕ → Details
limit_details none = no_details
limit_details (some zero) = no_details
limit_details (some (suc n)) = token_limit (suc n)

unfoldable pub oversized_rule : Rule
oversized_rule f =
    given
      (is_oversized_tpm f.msg
        && (not (contains "try again in" f.msg) || over_limit (limit_and_requested f.msg)))
      (record (outcome request_incompatibility payload_too_large false false
        (some (code_or f.code 413)) f) { details = limit_details (parse_input_tpm_limit f.msg) })

abbrev pub three_seconds : Delay
three_seconds = record { num = 3; den = 1 }

-- `not delay` is also true of 0.
abbrev pub is_unset : Option Delay → Bool
is_unset none = true
is_unset (some d) = nat_beq d.num 0

abbrev pub delay_or_three : Option Delay → Delay
delay_or_three none = three_seconds
delay_or_three (some d) = d

abbrev pub windows : List String
windows = "tokens per minute" ∷ "tpm" ∷ "try again in" ∷ []

abbrev pub rates : List String
rates = "rate" ∷ "limit" ∷ []

unfoldable pub temporal_rule : Rule
temporal_rule f =
    given (mentions windows f.msg && (mentions rates f.msg || is_code f.code (413 ∷ 429 ∷ [])))
      (record (outcome rate_limited rate_limit true true (some (code_or f.code 429)) f) {
        retry_after =
            if is_unset f.retry_after
            then some (delay_or_three (wait_in_message f.msg))
            else f.retry_after;
      })

unfoldable pub overflow_rule : Rule
overflow_rule f =
    given (is_code f.code (413 ∷ []) || mentions Phrases.context_overflow_patterns f.msg)
      (outcome request_incompatibility payload_too_large false false (some 413) f)

abbrev pub daily_quota : List String
daily_quota = "free-models-per-day" ∷ "free model requests" ∷ []

unfoldable pub daily_rule : Rule
daily_rule f =
    given (mentions daily_quota f.msg)
      (record (outcome rate_limited billing false false (some (code_or f.code 429)) f) {
        retry_after = some f.until_midnight;
        details = account_wide f.until_midnight;
      })

unfoldable pub billing_rule : Rule
billing_rule f =
    given (is_code f.code (402 ∷ []) || mentions Phrases.billing_patterns f.msg)
      (record (outcome rate_limited billing false true (some 402) f) { is_permanent = true })

-- `retry_after or parsed_delay`, then a minute where the message is about tokens.
unfoldable pub rate_delay : Failure → Option Delay
rate_delay f =
    let delay =
      if is_unset f.retry_after then parse_retry_after_from_body f.msg else f.retry_after in
    if mentions Phrases.tpm_rate_limit_patterns f.msg
    then or_else delay (some (record { num = 60; den = 1 }))
    else delay

unfoldable pub rate_rule : Rule
rate_rule f =
    given
      (is_code f.code (429 ∷ [])
        || mentions Phrases.tpm_rate_limit_patterns f.msg
        || contains "ratelimit" f.type_name)
      (record (outcome rate_limited
        (if mentions Phrases.upstream_429_patterns f.msg then upstream_rate_limit else rate_limit)
        true true (some 429) f) { retry_after = rate_delay f })

unfoldable pub deprecated_rule : Rule
deprecated_rule f =
    given
      (is_code f.code (404 ∷ 410 ∷ 400 ∷ []) && mentions Phrases.deprecation_patterns f.msg
        || is_code f.code (410 ∷ []))
      (record (outcome request_incompatibility model_not_found false false
        (some (code_or f.code 410)) f) { is_permanent = true })

unfoldable pub not_found_rule : Rule
not_found_rule f =
    given (is_code f.code (404 ∷ []))
      (record (outcome request_incompatibility model_not_found false false (some 404) f) {
        is_permanent = true;
      })

unfoldable pub tool_rule : Rule
tool_rule f =
    given (mentions Phrases.tool_malformed_patterns f.msg)
      (outcome semantic_agent_failure malformed_tool_call false false (some (code_or f.code 200)) f)

unfoldable pub schema_rule : Rule
schema_rule f =
    given (is_code f.code (400 ∷ []) && mentions Phrases.schema_incompatibility_patterns f.msg)
      (outcome request_incompatibility schema_incompatible false false (some 400) f)

abbrev pub denials : List String
denials = "access denied" ∷ "forbidden" ∷ []

abbrev pub permanent_denials : List String
permanent_denials =
    "access denied" ∷ "forbidden" ∷ "invalid api key" ∷ "incorrect api key" ∷ "unauthorized" ∷ []

unfoldable pub auth_rule : Rule
auth_rule f =
    given
      (is_code f.code (401 ∷ 403 ∷ [])
        || mentions denials f.msg
        || mentions Phrases.client_fault_patterns f.msg)
      (record (outcome
        (if mentions Phrases.client_fault_patterns f.msg then client_fault else infrastructure) auth
        false false (some (code_or f.code 403)) f) {
          is_permanent = is_code f.code (401 ∷ 403 ∷ []) || mentions permanent_denials f.msg;
        })

unfoldable pub waf_rule : Rule
waf_rule f =
    given (mentions Phrases.waf_patterns f.msg)
      (outcome infrastructure waf_blocked false true (some (code_or f.code 403)) f)

abbrev pub gateway_faults : List String
gateway_faults = "overloaded" ∷ "bad gateway" ∷ "gateway timeout" ∷ []

abbrev pub overload : List String
overload = "overloaded" ∷ []

unfoldable pub server_rule : Rule
server_rule f =
    given (is_code f.code (408 ∷ 500 ∷ 502 ∷ 503 ∷ 504 ∷ 529 ∷ []) || mentions gateway_faults f.msg)
      (outcome infrastructure
        (if is_code f.code (503 ∷ 529 ∷ []) || mentions overload f.msg
          then overloaded
          else server_error)
        true true f.code f)

abbrev pub timeouts : List String
timeouts = "timeout" ∷ "timed out" ∷ []

unfoldable pub timeout_rule : Rule
timeout_rule f =
    given (mentions timeouts f.msg || contains "connecttimeout" f.type_name)
      (outcome infrastructure timeout true true (some (code_or f.code 504)) f)

-- `code is not None and 400 <= code < 500`
abbrev pub is_4xx : Option ℕ → Bool
is_4xx none = false
is_4xx (some n) = leb 400 n && ltb n 500

unfoldable pub client_rule : Rule
client_rule f =
    given (is_4xx f.code) (outcome request_incompatibility client_error false false f.code f)

abbrev pub fallback : Failure → FailureClassification
fallback f = outcome unknown_category unknown true true f.code f

-- The rules in the order of the code.
abbrev pub rules : List Rule
rules =
    ssl_rule ∷ refused_rule ∷ output_cap_rule ∷ empty_rule ∷ oversized_rule ∷ temporal_rule
    ∷ overflow_rule ∷ daily_rule ∷ billing_rule ∷ rate_rule ∷ deprecated_rule ∷ not_found_rule
    ∷ tool_rule ∷ schema_rule ∷ auth_rule ∷ waf_rule ∷ server_rule ∷ timeout_rule ∷ client_rule ∷ []

abbrev pub or_default : Option FailureClassification → FailureClassification → FailureClassification
or_default none c = c
or_default (some c) d = c

unfoldable pub first_of : List Rule → Failure → FailureClassification
first_of [] f = fallback f
first_of (r ∷ rs) f = or_default (r f) (first_of rs f)

unfoldable pub classify : Failure → FailureClassification
unfolding first_of
classify f = first_of rules f

-- The message: the text, and the body where it is a dictionary.
abbrev pub message_of : String → Option String → String
message_of text none = text
message_of text (some body) = text ++ " " ++ body

-- `retry_after` is what `parse_retry_after` reads from the header.
unfoldable pub classify_failure :
    ErrorObject → Option ℕ → Option Delay → Delay → FailureClassification
unfolding classify
classify_failure error status_code retry_after until_midnight = classify (record {
  code =
      or_else status_code
        (or_else error.status_code (or_else error.code error.response_status_code));
  msg = message_of error.text error.body;
  type_name = error.type_name;
  retry_after = retry_after;
  until_midnight = until_midnight;
})
