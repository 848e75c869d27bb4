-- ===== src/Execution/Executor/Failure.antt =====
-- What a failed attempt leads to: what the other components are told, and whether the loop tries the
-- same endpoint again, with another key, less output or less context, or excludes it.
use durallm.Common.{
  ℕ, zero, suc, ◌-◌, ◌*◌, ◌/◌, min, max, Bool, true, false, not, ◌&&◌, ◌||◌, Option, none, some,
  String, List, [], ◌∷◌, ◌++◌, ltb, nat_beq, if◌then◌else◌, ◌==◌, string_eq,
}
use durallm.Common.Dict
use durallm.Classifier.Model.{
  FailoverReason, FailureClassification, Delay, Details, token_limit, or_else,
}
use durallm.Classifier.Phrases.{contains}
use durallm.Classifier.Numbers.{parse_input_tpm_limit, parse_output_cap_from_error}
use durallm.Routing.Selection.{Endpoint, has_id}
use durallm.Execution.Attempts
use durallm.Execution.Deadline.{remaining_ms}
use durallm.Execution.Executor.Model.{
  Setup, Turn, Progress, Ratio, Call, waits, lane_available, lane_unavailable, settles,
  breaker_failure, finishes, AttemptStatus, key_rotated_429, health_failure, marks_cooldown,
  marks_quota_exhausted, marks_provider_exhausted, records_lockout, marks_dead, marks_deprecated,
  key_cooldown, failed_with, End, continues, raises, non_recoverable_failure, emit, emit_if,
  emit_all, exclude, record_attempt, is_rate_limit,
}
use durallm.Execution.Executor.Delays.{
  seconds, milliseconds, delay_lt, delay_min, delay_max, delay_or, compute_backoff_seconds,
}
use durallm.Execution.Executor.Sizing.{number_or}

-- `_record_lane_outcome`, after a success and after a failure
abbrev pub lane_success : Option String → List Call
lane_success none = []
lane_success (some lane) = lane_available lane ∷ []

unfoldable pub lane_failure : Option String → FailureClassification → List Call
lane_failure none c = []
lane_failure (some lane) c =
    if is_rate_limit c.reason
    then lane_unavailable lane c.reason (delay_or c.retry_after (seconds 60)) ∷ []
    else []

abbrev pub is_infrastructure : FailoverReason → Bool
is_infrastructure FailoverReason.server_error = true
is_infrastructure FailoverReason.timeout = true
is_infrastructure FailoverReason.connection_refused = true
is_infrastructure FailoverReason.overloaded = true
is_infrastructure _ = false

-- `cd_seconds`
unfoldable pub cooldown_of : FailureClassification → Option Delay
cooldown_of c =
    if is_rate_limit c.reason
    then some
        (delay_min (seconds 120) (delay_max (seconds 30) (delay_or c.retry_after (seconds 60))))
    else if is_infrastructure c.reason
    then some (seconds 30)
    else none

abbrev pub is_billing : FailoverReason → Bool
is_billing FailoverReason.billing = true
is_billing _ = false

-- `quota_seconds` where the reason is billing
abbrev pub quota_delay : FailureClassification → Delay
quota_delay c = delay_or c.retry_after (seconds 86400)

unfoldable pub quota_of : FailureClassification → Option Delay
quota_of c = if is_billing c.reason then some (quota_delay c) else none

unfoldable pub is_account_wide : Endpoint → FailureClassification → Bool
is_account_wide ep c =
    contains "free-models-per-day" c.message
    || contains "free model requests" c.message
    || ep.provider == "openrouter"

-- The routes are named by endpoint; the pool is that of the request.
unfoldable pub billing_calls : Endpoint → FailureClassification → List Call
unfolding is_account_wide
billing_calls ep c =
    let d = quota_delay c in
    if not (is_billing c.reason)
    then []
    else if is_account_wide ep c
    then marks_quota_exhausted ep.id d
      ∷ marks_provider_exhausted ep.provider d
      ∷ records_lockout ep.provider ep.id d
      ∷ records_lockout ep.provider "*" d
      ∷ []
    else marks_quota_exhausted ep.id d ∷ records_lockout ep.provider ep.id d ∷ []

abbrev pub add_excluded : String → List String → List String
add_excluded id ids = if has_id id ids then ids else id ∷ ids

unfoldable pub exclude_provider : String → List Endpoint → List String → List String
exclude_provider provider [] ids = ids
exclude_provider provider (ep ∷ eps) ids =
    exclude_provider provider eps (if ep.provider == provider then add_excluded ep.id ids else ids)

abbrev pub is_gone : FailureClassification → Bool
is_gone c = c.is_permanent || elim c.reason [ FailoverReason.model_not_found ↦ true | _ ↦ false ]

unfoldable pub dead_calls : Endpoint → FailureClassification → List Call
dead_calls ep c = if is_gone c then marks_dead ep.id ∷ marks_deprecated ep.model ∷ [] else []

-- The endpoints that the failure excludes at once.
unfoldable pub excluded_after :
    List Endpoint → Endpoint → FailureClassification → List String → List String
unfolding exclude_provider is_account_wide
excluded_after endpoints ep c ids =
    let ids' =
      if is_billing c.reason && is_account_wide ep c
      then exclude_provider ep.provider endpoints ids
      else ids in
    if is_gone c then add_excluded ep.id ids' else ids'

unfoldable pub failure_calls : Endpoint → ℕ → FailureClassification → List Call
unfolding quota_of billing_calls dead_calls lane_failure
failure_calls ep status c =
    breaker_failure ep.resource_key c
    ∷ health_failure ep.id (some status) none (quota_of c) c.is_permanent
    ∷ (billing_calls ep c ++ dead_calls ep c ++ lane_failure ep.lane_key c)

-- The attempt enters the ledger, its reservation is settled in full and its end is stored; that the
-- store raises is not modelled.
unfoldable pub close_attempt :
    Setup → Turn → Endpoint → Option FailureClassification → AttemptStatus → ℕ → Progress → Progress
close_attempt setup turn ep failure status amount s = emit (finishes turn.attempt_id status) (
    emit_if setup.has_budget_limit (settles turn.attempt_id amount)
      (record_attempt ep.id failure s))

unfoldable pub record_failure :
    Setup → Turn → Endpoint → ℕ → FailureClassification → Progress → Progress
unfolding failure_calls excluded_after close_attempt
record_failure setup turn ep status c s =
    let s' =
      close_attempt setup turn ep (some c) AttemptStatus.failed turn.reserved_amount
        (emit_all (failure_calls ep status c) s) in
    record s' {
      excluded_endpoints = excluded_after setup.endpoints ep c s.excluded_endpoints;
      last_failure_reason = some (failed_with c.reason);
    }

abbrev pub cooldown_calls : Endpoint → Option Delay → List Call
cooldown_calls ep none = []
cooldown_calls ep (some d) =
    health_failure ep.id none (some d) none false ∷ marks_cooldown ep.id d ∷ []

-- The endpoint is cooled down and excluded, which is a hop.
unfoldable pub give_up : Endpoint → FailureClassification → Progress → Progress
unfolding cooldown_of
give_up ep c s = record (exclude ep.id (emit_all (cooldown_calls ep (cooldown_of c)) s)) {
  ledger = Attempts.mark_fallback s.ledger;
  fallback_marked = true;
}

abbrev pub is_output_cap : FailoverReason → Bool
is_output_cap FailoverReason.output_cap_exceeded = true
is_output_cap _ = false

abbrev pub is_too_large : FailoverReason → Bool
is_too_large FailoverReason.payload_too_large = true
is_too_large FailoverReason.context_overflow = true
is_too_large _ = false

unfoldable pub clamp_output : Option ℕ → ℕ → ℕ
clamp_output none current = min current 1024
clamp_output (some zero) current = min current 1024
clamp_output (some (suc n)) current = if ltb 64 (suc n) then max 1 (suc n - 64) else suc n

abbrev pub limit_in : Details → Option ℕ
limit_in (token_limit n) = if nat_beq n 0 then none else some n
limit_in _ = none

-- Which part of the window is used from now on: 85% of the limit that the provider names, between a
-- tenth and 95% of the window, or a half.
unfoldable pub shrink_to : Option ℕ → ℕ → Ratio
shrink_to none window = record { num = 1; den = 2 }
shrink_to (some zero) window = record { num = 1; den = 2 }
shrink_to (some (suc n)) window =
    let target = max 1000 (suc n * 85 / 100) in
    if ltb (target * 10) window
    then record { num = 1; den = 10 }
    else if ltb (window * 95) (target * 100)
    then record { num = 95; den = 100 }
    else record { num = target; den = window }

abbrev pub is_there : Option Ratio → Bool
is_there none = false
is_there (some r) = true

-- The same endpoint again after a wait, if the deadline leaves room for it.
unfoldable pub back_off : Setup → Turn → Endpoint → FailureClassification → Progress → Progress
unfolding give_up compute_backoff_seconds
back_off setup turn ep c s =
    let d =
      compute_backoff_seconds setup.retry turn.jittered (Attempts.attempts_on ep.id s.ledger)
        c.retry_after in
    if delay_lt d (milliseconds (remaining_ms setup.deadline turn.backoff_time))
    then emit_all (waits d ∷ lane_success ep.lane_key) s
    else give_up ep c s

-- The decision after the failure was recorded
unfoldable pub decide : Setup → Turn → Endpoint → FailureClassification → Progress → End
unfolding clamp_output shrink_to back_off give_up
decide setup turn ep c s =
    let can = Attempts.can_attempt_endpoint ep.id s.ledger in
    if is_output_cap c.reason && not (has_id ep.id s.output_cap_retried) && can
    then continues (record s {
      output_cap_retried = ep.id ∷ s.output_cap_retried;
      max_output_tokens = some (
          clamp_output (parse_output_cap_from_error c.message)
            (number_or s.max_output_tokens (number_or (some ep.profile.max_output_tokens) 4096)));
    })
    else if is_too_large c.reason && not (is_there (Dict.lookup ep.id s.window_shrink)) && can
    then continues (record s {
      window_shrink =
          Dict.insert ep.id
            (shrink_to (or_else (limit_in c.details) (parse_input_tpm_limit c.message))
              ep.profile.context_window)
            s.window_shrink;
    })
    else if not c.retryable || not can
    then if c.should_fallback then continues (give_up ep c s) else raises non_recoverable_failure s
    else continues (back_off setup turn ep c s)

abbrev pub is_plain_limit : FailoverReason → Bool
is_plain_limit FailoverReason.rate_limit = true
is_plain_limit _ = false

abbrev pub key_call : Option String → Option Delay → List Call
key_call none d = []
key_call (some key) d = key_cooldown key d ∷ []

abbrev pub has_key : Option String → Bool
has_key none = false
has_key (some key) = not (key == "")

-- After a rate limit the next round uses another key of the endpoint, if there is one.
unfoldable pub rotate_key : Setup → Turn → Endpoint → FailureClassification → Progress → Progress
unfolding close_attempt
rotate_key setup turn ep c s =
    close_attempt setup turn ep (some c) key_rotated_429 turn.reserved_amount
      (emit_all (key_call turn.key_id c.retry_after) s)

unfoldable pub after_failure : Setup → Turn → Endpoint → ℕ → FailureClassification → Progress → End
unfolding rotate_key record_failure decide
after_failure setup turn ep status c s =
    if is_plain_limit c.reason && has_key turn.key_id && turn.has_alternative_key
    then continues (rotate_key setup turn ep c s)
    else decide setup turn ep c (record_failure setup turn ep status c s)
