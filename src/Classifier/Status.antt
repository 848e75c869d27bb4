-- ===== src/Classifier/Status.antt =====
-- What the status code alone decides.
use durallm.Common.{
  ℕ, ◌≡◌, refl, false, Option, none, String, List, [], ◌∷◌, All, arith, if◌then◌else◌,
}
use durallm.Classifier.Model.{
  FailoverReason, rate_limit, billing, auth, model_not_found, overloaded, server_error,
  payload_too_large, client_error, unknown, Failure,
}
use durallm.Classifier.Phrases
use durallm.Classifier.Phrases.{contains, mentions}
use durallm.Classifier.Numbers.{limit_and_requested}
use durallm.Classifier.Rules

-- The meaning of a status code, for a message that says nothing more.
abbrev pub status_reason : Option ℕ → FailoverReason
status_reason code =
    if Rules.is_code code (413 ∷ [])
    then payload_too_large
    else if Rules.is_code code (402 ∷ [])
    then billing
    else if Rules.is_code code (429 ∷ [])
    then rate_limit
    else if Rules.is_code code (404 ∷ 410 ∷ [])
    then model_not_found
    else if Rules.is_code code (401 ∷ 403 ∷ [])
    then auth
    else if Rules.is_code code (503 ∷ 529 ∷ [])
    then overloaded
    else if Rules.is_code code (408 ∷ 500 ∷ 502 ∷ 504 ∷ [])
    then server_error
    else if Rules.is_4xx code
    then client_error
    else unknown

-- The phrases that some rule looks for.
abbrev pub phrases : List (List String)
phrases =
    Phrases.ssl_patterns ∷ Rules.refusals ∷ Phrases.output_cap_patterns ∷ Rules.empties
    ∷ Rules.windows ∷ Phrases.context_overflow_patterns ∷ Rules.daily_quota
    ∷ Phrases.billing_patterns ∷ Phrases.tpm_rate_limit_patterns ∷ Phrases.upstream_429_patterns
    ∷ Phrases.deprecation_patterns ∷ Phrases.tool_malformed_patterns
    ∷ Phrases.schema_incompatibility_patterns ∷ Rules.denials ∷ Phrases.client_fault_patterns
    ∷ Phrases.waf_patterns ∷ Rules.gateway_faults ∷ Rules.overload ∷ Rules.timeouts ∷ []

-- Neither the message nor the class name says what went wrong.
pub record IsQuiet (f : Failure) : Type 0 where
  pub no_phrase : All (λ ps. mentions ps f.msg ≡ false) phrases
  pub no_size : contains "request too large" f.msg ≡ false
  pub no_limit : limit_and_requested f.msg ≡ none
  pub no_ssl : contains "sslerror" f.type_name ≡ false
  pub no_rate : contains "ratelimit" f.type_name ≡ false
  pub no_timeout : contains "connecttimeout" f.type_name ≡ false

is_oversized_tpm_quiet : (f : Failure) → IsQuiet f → Rules.is_oversized_tpm f.msg ≡ false
unfolding Rules.is_oversized_tpm
is_oversized_tpm_quiet f q = rw (q.no_limit, q.no_size) refl

ssl-none : (f : Failure) → IsQuiet f → Rules.ssl_rule f ≡ none
unfolding Rules.ssl_rule
ssl-none f q = ground (arith)

refused-none : (f : Failure) → IsQuiet f → Rules.refused_rule f ≡ none
unfolding Rules.refused_rule
refused-none f q = ground (arith)

output_cap-none : (f : Failure) → IsQuiet f → Rules.output_cap_rule f ≡ none
unfolding Rules.output_cap_rule
output_cap-none f q = ground (arith)

empty-none : (f : Failure) → IsQuiet f → Rules.empty_rule f ≡ none
unfolding Rules.empty_rule
empty-none f q = ground (arith)

oversized-none : (f : Failure) → IsQuiet f → Rules.oversized_rule f ≡ none
unfolding Rules.oversized_rule
oversized-none f q = ground (arith, is_oversized_tpm_quiet f q)

temporal-none : (f : Failure) → IsQuiet f → Rules.temporal_rule f ≡ none
unfolding Rules.temporal_rule
temporal-none f q = ground (arith)

daily-none : (f : Failure) → IsQuiet f → Rules.daily_rule f ≡ none
unfolding Rules.daily_rule
daily-none f q = ground (arith)

tool-none : (f : Failure) → IsQuiet f → Rules.tool_rule f ≡ none
unfolding Rules.tool_rule
tool-none f q = ground (arith)

schema-none : (f : Failure) → IsQuiet f → Rules.schema_rule f ≡ none
unfolding Rules.schema_rule
schema-none f q = ground (arith)

waf-none : (f : Failure) → IsQuiet f → Rules.waf_rule f ≡ none
unfolding Rules.waf_rule
waf-none f q = ground (arith)

timeout-none : (f : Failure) → IsQuiet f → Rules.timeout_rule f ≡ none
unfolding Rules.timeout_rule
timeout-none f q = ground (arith)

-- What is left decides by the code.
by_code : List Rules.Rule
by_code =
    Rules.overflow_rule ∷ Rules.billing_rule ∷ Rules.rate_rule ∷ Rules.deprecated_rule
    ∷ Rules.not_found_rule ∷ Rules.auth_rule ∷ Rules.server_rule ∷ Rules.client_rule ∷ []

classify_quiet : (f : Failure) → IsQuiet f → Rules.classify f ≡ Rules.first_of by_code f
unfolding Rules.classify Rules.first_of by_code
classify_quiet f q = cc (
  ssl-none f q,
  refused-none f q,
  output_cap-none f q,
  empty-none f q,
  oversized-none f q,
  temporal-none f q,
  daily-none f q,
  tool-none f q,
  schema-none f q,
  waf-none f q,
  timeout-none f q,
)

-- A failure whose message and class name hold none of the phrases is classified by its status code
-- as in `status_reason`: in particular any 4xx that is not listed there is a client error, and no
-- code or any other code is unknown.
pub classify-eq-status_reason :
    (f : Failure) → IsQuiet f → (Rules.classify f).reason ≡ status_reason f.code
unfolding Rules.first_of by_code Rules.overflow_rule Rules.billing_rule Rules.rate_rule
    Rules.deprecated_rule Rules.not_found_rule Rules.auth_rule Rules.server_rule Rules.client_rule
classify-eq-status_reason f q = rw (classify_quiet f q) (ground arith)
