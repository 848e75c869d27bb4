-- ===== src/Classifier/Table.antt =====
-- What the reason of a classification says of its other fields.
use mathlib.Core.Path.{subst}
use durallm.Common.{
  ℕ, ◌≡◌, refl, ap, Bool, true, false, Option, none, some, List, [], ◌∷◌, All, arith,
}
use durallm.Classifier.Model.{
  FailureCategory, rate_limited, FailoverReason, rate_limit, upstream_rate_limit, billing, auth,
  model_not_found, overloaded, server_error, timeout, ssl_cert_verification, output_cap_exceeded,
  waf_blocked, connection_refused, empty_completion, unknown, Delay, FailureClassification,
  ErrorObject, Failure, given,
}
use durallm.Classifier.Rules

-- Whether the same endpoint may be tried again.
abbrev pub retry_table : FailoverReason → Bool
retry_table rate_limit = true
retry_table upstream_rate_limit = true
retry_table overloaded = true
retry_table server_error = true
retry_table timeout = true
retry_table output_cap_exceeded = true
retry_table empty_completion = true
retry_table unknown = true
retry_table _ = false

-- Whether the failure counts against the health of the endpoint: where the provider is at fault.
-- A billing failure does so if it is permanent.
abbrev pub health_table : FailoverReason → Bool → Bool
health_table billing permanent = permanent
health_table rate_limit permanent = true
health_table upstream_rate_limit permanent = true
health_table overloaded permanent = true
health_table server_error permanent = true
health_table timeout permanent = true
health_table ssl_cert_verification permanent = true
health_table waf_blocked permanent = true
health_table connection_refused permanent = true
health_table unknown permanent = true
health_table _ permanent = false

-- Whether the category may carry a delay.
abbrev pub DelayTable : FailureCategory → Option Delay → Type 0
DelayTable rate_limited d = Unit
DelayTable _ d = d ≡ none

-- Only these reasons may be permanent.
abbrev pub PermanentTable : FailoverReason → Bool → Type 0
PermanentTable billing p = Unit
PermanentTable model_not_found p = p ≡ true
PermanentTable auth p = Unit
PermanentTable _ p = p ≡ false

pub record InTable (c : FailureClassification) : Type 0 where
  pub fallback_allowed : c.should_fallback ≡ true
  pub retry : c.retryable ≡ retry_table c.reason
  pub health : c.poisons_health ≡ health_table c.reason c.is_permanent
  pub delay : DelayTable c.category c.retry_after
  pub permanent : PermanentTable c.reason c.is_permanent

Sound : Rules.Rule → Type 0
Sound r = (f : Failure) (c : FailureClassification) → r f ≡ some c → InTable c

given-InTable :
    (b : Bool) (a c : FailureClassification) → given b a ≡ some c → InTable a → InTable c
given-InTable true a c e h = subst InTable (ap (λ o. elim o [ none ↦ a | some x ↦ x ]) e) h
given-InTable false a c e h = cc

ssl-Sound : Sound Rules.ssl_rule
unfolding Sound Rules.ssl_rule
ssl-Sound f c e = given-InTable _ _ c e (ground arith)

refused-Sound : Sound Rules.refused_rule
unfolding Sound Rules.refused_rule
refused-Sound f c e = given-InTable _ _ c e (ground arith)

output_cap-Sound : Sound Rules.output_cap_rule
unfolding Sound Rules.output_cap_rule
output_cap-Sound f c e = given-InTable _ _ c e (ground arith)

empty-Sound : Sound Rules.empty_rule
unfolding Sound Rules.empty_rule
empty-Sound f c e = given-InTable _ _ c e (ground arith)

oversized-Sound : Sound Rules.oversized_rule
unfolding Sound Rules.oversized_rule
oversized-Sound f c e = given-InTable _ _ c e (ground arith)

temporal-Sound : Sound Rules.temporal_rule
unfolding Sound Rules.temporal_rule
temporal-Sound f c e = given-InTable _ _ c e (ground arith)

overflow-Sound : Sound Rules.overflow_rule
unfolding Sound Rules.overflow_rule
overflow-Sound f c e = given-InTable _ _ c e (ground arith)

daily-Sound : Sound Rules.daily_rule
unfolding Sound Rules.daily_rule
daily-Sound f c e = given-InTable _ _ c e (ground arith)

billing-Sound : Sound Rules.billing_rule
unfolding Sound Rules.billing_rule
billing-Sound f c e = given-InTable _ _ c e (ground arith)

rate-Sound : Sound Rules.rate_rule
unfolding Sound Rules.rate_rule
rate-Sound f c e = given-InTable _ _ c e (ground arith)

deprecated-Sound : Sound Rules.deprecated_rule
unfolding Sound Rules.deprecated_rule
deprecated-Sound f c e = given-InTable _ _ c e (ground arith)

not_found-Sound : Sound Rules.not_found_rule
unfolding Sound Rules.not_found_rule
not_found-Sound f c e = given-InTable _ _ c e (ground arith)

tool-Sound : Sound Rules.tool_rule
unfolding Sound Rules.tool_rule
tool-Sound f c e = given-InTable _ _ c e (ground arith)

schema-Sound : Sound Rules.schema_rule
unfolding Sound Rules.schema_rule
schema-Sound f c e = given-InTable _ _ c e (ground arith)

auth-Sound : Sound Rules.auth_rule
unfolding Sound Rules.auth_rule
auth-Sound f c e = given-InTable _ _ c e (ground arith)

waf-Sound : Sound Rules.waf_rule
unfolding Sound Rules.waf_rule
waf-Sound f c e = given-InTable _ _ c e (ground arith)

server-Sound : Sound Rules.server_rule
unfolding Sound Rules.server_rule
server-Sound f c e = given-InTable _ _ c e (ground arith)

timeout-Sound : Sound Rules.timeout_rule
unfolding Sound Rules.timeout_rule
timeout-Sound f c e = given-InTable _ _ c e (ground arith)

client-Sound : Sound Rules.client_rule
unfolding Sound Rules.client_rule
client-Sound f c e = given-InTable _ _ c e (ground arith)

rules-Sound : All Sound Rules.rules
rules-Sound = (
  ssl-Sound,
  (
    refused-Sound,
    (
      output_cap-Sound,
      (
        empty-Sound,
        (
          oversized-Sound,
          (
            temporal-Sound,
            (
              overflow-Sound,
              (
                daily-Sound,
                (
                  billing-Sound,
                  (
                    rate-Sound,
                    (
                      deprecated-Sound,
                      (
                        not_found-Sound,
                        (
                          tool-Sound,
                          (
                            schema-Sound,
                            (
                              auth-Sound,
                              (waf-Sound, (server-Sound, (timeout-Sound, (client-Sound, tt)))),
                            ),
                          ),
                        ),
                      ),
                    ),
                  ),
                ),
              ),
            ),
          ),
        ),
      ),
    ),
  ),
)

or_default-InTable :
    (o : Option FailureClassification) (d : FailureClassification)
    → ((c : FailureClassification) → o ≡ some c → InTable c)
    → InTable d
    → InTable (Rules.or_default o d)
or_default-InTable none d s t = t
or_default-InTable (some c) d s t = s c refl

first_of-InTable :
    (rs : List Rules.Rule) (f : Failure) → All Sound rs → InTable (Rules.first_of rs f)
unfolding Rules.first_of Sound
first_of-InTable [] f h = ground arith
first_of-InTable (r ∷ rs) f h =
    or_default-InTable (r f) (Rules.first_of rs f) (h.0 f) (first_of-InTable rs f h.1)

-- Every classification, of any error with any status code and headers, keeps to the table of its
-- reason: fallback is allowed, to a fault of the client as well, where docs/adr/0003 forbids it;
-- `retryable` and `poisons_health` are those of the table, so that a request that the provider
-- rejects for its size, schema, credentials or tool calls never counts against the health of the
-- endpoint; only a rate limit carries a delay; and only billing, a missing model and credentials
-- are permanent, a missing model always.
pub classify_failure-InTable :
    (error : ErrorObject) (status_code : Option ℕ) (retry_after : Option Delay)
    (until_midnight : Delay)
    → InTable (Rules.classify_failure error status_code retry_after until_midnight)
unfolding Rules.classify_failure Rules.classify
classify_failure-InTable error status_code retry_after until_midnight =
    first_of-InTable Rules.rules _ rules-Sound
