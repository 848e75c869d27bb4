-- ===== src/Tests/Classifier.antt =====
-- Error messages of providers.
use durallm.Common.{◌≡◌, refl, none, some}
use durallm.Classifier.Model.{ErrorObject, Failure, Delay, model_not_found}
use durallm.Classifier.Phrases
use durallm.Classifier.Numbers.{
  parse_input_tpm_limit, parse_retry_after_from_body, parse_output_cap_from_error,
  limit_and_requested,
}
use durallm.Classifier.Rules
use durallm.Classifier.Table.{InTable, classify_failure-InTable}
use durallm.Classifier.Status.{IsQuiet, status_reason, classify-eq-status_reason}

groq_limit :
    parse_input_tpm_limit "on input tokens per minute (tpm): limit 6000, requested 15972"
    ≡ some 6000
unfolding parse_input_tpm_limit
groq_limit = refl

groq_delay :
    parse_retry_after_from_body "please try again in 5.14s."
    ≡ some (record { num = 514; den = 100 })
unfolding parse_retry_after_from_body
groq_delay = refl

dashscope_cap : parse_output_cap_from_error "range of max_tokens should be [1, 65536]" ≡ some 65536
unfolding parse_output_cap_from_error
dashscope_cap = refl

groq_both : limit_and_requested "limit 6000, requested 15972" ≡ some (6000, 15972)
unfolding limit_and_requested
groq_both = refl

abbrev midnight : Delay
midnight = record { num = 3600; den = 1 }

abbrev overflow_error : ErrorObject
overflow_error = record {
  status_code = some 400;
  code = none;
  response_status_code = none;
  text = "this model's maximum context length is 8192 tokens";
  body = none;
  type_name = "badrequesterror";
}

classify_failure-InTable_example :
    InTable (Rules.classify_failure overflow_error none none midnight)
classify_failure-InTable_example = classify_failure-InTable overflow_error none none midnight

abbrev quiet_failure : Failure
quiet_failure = record {
  code = some 409;
  msg = "conflict";
  type_name = "apierror";
  retry_after = none;
  until_midnight = midnight;
}

quiet_failure-IsQuiet : IsQuiet quiet_failure
unfolding limit_and_requested Phrases.mentions Phrases.contains
quiet_failure-IsQuiet = record {
  no_phrase = (
    refl,
    (
      refl,
      (
        refl,
        (
          refl,
          (
            refl,
            (
              refl,
              (
                refl,
                (
                  refl,
                  (
                    refl,
                    (
                      refl,
                      (refl, (refl, (refl, (refl, (refl, (refl, (refl, (refl, (refl, tt))))))))),
                    ),
                  ),
                ),
              ),
            ),
          ),
        ),
      ),
    ),
  );
  no_size = refl;
  no_limit = refl;
  no_ssl = refl;
  no_rate = refl;
  no_timeout = refl;
}

classify-eq-status_reason_example : (Rules.classify quiet_failure).reason ≡ status_reason (some 409)
classify-eq-status_reason_example = classify-eq-status_reason quiet_failure quiet_failure-IsQuiet

abbrev place_error : Failure
place_error = record quiet_failure { code = some 400; msg = "unknown argument geolocation" }

-- The abbreviation of "end of life" is found inside an ordinary word.
place_error_lem : (Rules.classify place_error).reason ≡ model_not_found
unfolding Rules.classify Rules.ssl_rule Phrases.mentions Phrases.contains Rules.refused_rule
    Rules.output_cap_rule Rules.empty_rule Rules.oversized_rule Rules.is_oversized_tpm
    limit_and_requested Rules.temporal_rule Rules.overflow_rule Rules.daily_rule Rules.billing_rule
    Rules.rate_rule Rules.deprecated_rule
place_error_lem = refl
