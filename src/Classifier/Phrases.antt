-- ===== src/Classifier/Phrases.antt =====
-- The phrases that durallm/classifier.py looks for in a message.
use durallm.Common.{Bool, ◌||◌, String, List, [], ◌∷◌, any}
use text.Mathlib.Text.{starts_with}

-- `p in s`
unfoldable pub contains : String → String → Bool
contains p String.[] = starts_with String.[] p
contains p (String.◌∷◌ c s) = starts_with (String.◌∷◌ c s) p || contains p s

-- `any(p in msg for p in patterns)`
unfoldable pub mentions : List String → String → Bool
mentions patterns msg = any (λ p. contains p msg) patterns

abbrev pub billing_patterns : List String
billing_patterns =
    "insufficient credits" ∷ "credit balance" ∷ "billing" ∷ "payment required" ∷ "out of credits"
    ∷ "usage limit reached" ∷ "monthly spending cap" ∷ "insufficient_quota" ∷ "quota_exceeded"
    ∷ "account_deactivated" ∷ "balance is too low" ∷ "free-models-per-day" ∷ "free model requests"
    ∷ "add 5 credits" ∷ []

abbrev pub deprecation_patterns : List String
deprecation_patterns =
    "deprecated" ∷ "decommissioned" ∷ "model does not exist" ∷ "model not found" ∷ "model_not_found"
    ∷ "has been removed" ∷ "is no longer available" ∷ "is not found for api version" ∷ "end of life"
    ∷ "eol" ∷ "has reached its end of life" ∷ "sunset" ∷ "no longer supported" ∷ []

abbrev pub upstream_429_patterns : List String
upstream_429_patterns =
    "temporarily rate-limited upstream" ∷ "upstream_provider_shared_pool"
    ∷ "provider returned error" ∷ "daily" ∷ "quota exceeded" ∷ []

abbrev pub waf_patterns : List String
waf_patterns =
    "cloudflare" ∷ "just a moment..." ∷ "challenge-running" ∷ "ddos protection" ∷ "ray id"
    ∷ "attention required! | cloudflare" ∷ "security verification" ∷ []

abbrev pub ssl_patterns : List String
ssl_patterns =
    "certificate verify failed" ∷ "self signed certificate" ∷ "sslcertverificationerror"
    ∷ "sslerror" ∷ []

abbrev pub output_cap_patterns : List String
output_cap_patterns =
    "must be less than or equal to" ∷ "less than or equal to" ∷ "range of max_tokens should be"
    ∷ "maximum output tokens" ∷ "available_tokens" ∷ "available tokens"
    ∷ "max_tokens is less than the context_window" ∷ "on output tokens" ∷ "output tokens per minute"
    ∷ "otpm" ∷ []

abbrev pub context_overflow_patterns : List String
context_overflow_patterns =
    "context_length_exceeded" ∷ "payload too large" ∷ "maximum context length"
    ∷ "token count exceeds limit" ∷ "request size exceeds" ∷ "too many tokens"
    ∷ "prompt is too long" ∷ "prompt too long" ∷ []

abbrev pub tpm_rate_limit_patterns : List String
tpm_rate_limit_patterns =
    "tokens per minute" ∷ "tpm limit" ∷ "input tokens per minute" ∷ "itpm" ∷ []

abbrev pub schema_incompatibility_patterns : List String
schema_incompatibility_patterns =
    "unrecognized parameter" ∷ "unknown field" ∷ "additionalproperties" ∷ "$schema"
    ∷ "invalid_request_error" ∷ "unknown parameter" ∷ "schema validation error" ∷ []

abbrev pub tool_malformed_patterns : List String
tool_malformed_patterns =
    "malformed tool call" ∷ "failed to parse function arguments" ∷ "invalid json in tool arguments"
    ∷ "invalid_tool_call" ∷ "missing required argument" ∷ "missing required parameter"
    ∷ "invalid tool argument" ∷ "unknown tool" ∷ "schema validation failed" ∷ []

abbrev pub client_fault_patterns : List String
client_fault_patterns =
    "invalid api key" ∷ "unauthorized" ∷ "incorrect api key" ∷ "bad request syntax"
    ∷ "malformed json request" ∷ []
