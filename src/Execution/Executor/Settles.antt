-- ===== src/Execution/Executor/Settles.antt =====
-- After a dispatch the reservation is settled, the attempt is stored, and the breaker is told unless
-- the key is rotated or the operation is blocked.
use durallm.Common.{
  ℕ, ◌≡◌, refl, true, false, not, ◌&&◌, ◌||◌, Option, none, some, String, [], ◌∷◌, ◌++◌, All-append,
  if◌then◌else◌, if_split, string_eq,
}
use durallm.Common.Dict
use durallm.Classifier.Model.{FailureClassification, FailoverReason}
use durallm.Classifier.Rules.{classify_failure}
use durallm.Routing.Selection.{Endpoint, has_id}
use durallm.Execution.Attempts
use durallm.Execution.Deadline.{remaining_ms}
use durallm.Execution.Executor.Model
use durallm.Execution.Executor.Model.{
  Setup, Turn, Progress, Call, Flow, End, goes_on, continues, responds, raises, ◌>>=◌, emit,
  emit_if, emit_all, push_all, exclude, AttemptStatus,
}
use durallm.Execution.Executor.Ensures.{EndsIn}
use durallm.Execution.Executor.Delays.{delay_lt, milliseconds, seconds, compute_backoff_seconds}
use durallm.Execution.Executor.Kinds.{
  leaks, Neutral, lane_success-Neutral, lane_failure-Neutral, failure-Neutral, cooldown-Neutral,
  key-Neutral, tools-Neutral,
}
use durallm.Execution.Executor.Failure
use durallm.Execution.Executor.Response
use durallm.Execution.Executor.Balance.{
  IsBalanced, Settled, push_all-Balance, settle-Balance, close-Balance, leak-Balance,
  failure-Balance, success-Balance,
}

module _ (setup : Setup) (turn : Turn) (ep : Endpoint) where
  abbrev pub reserved : Option String
  reserved = if setup.has_budget_limit then some turn.attempt_id else none

  -- An attempt whose permission was reported, and one whose permission was not.
  close_attempt-Settled :
      (failure : Option FailureClassification) (status : AttemptStatus) (amount : ℕ) (s : Progress)
      → leaks status ≡ false
      → IsBalanced reserved none (some turn.attempt_id) s
      → Settled (Failure.close_attempt setup turn ep failure status amount s)
  unfolding Failure.close_attempt Attempts.record_attempt
  close_attempt-Settled failure status amount s closed h =
      close-Balance turn.attempt_id s.ledger.total_attempts _ status closed (
        settle-Balance turn.attempt_id s.ledger.total_attempts s.calls setup.has_budget_limit amount
          none h)

  leak_attempt-Settled :
      (failure : Option FailureClassification) (status : AttemptStatus) (amount : ℕ) (s : Progress)
      → leaks status ≡ true
      → IsBalanced reserved (some ep.resource_key) (some turn.attempt_id) s
      → Settled (Failure.close_attempt setup turn ep failure status amount s)
  unfolding Failure.close_attempt Attempts.record_attempt
  leak_attempt-Settled failure status amount s leaked h =
      leak-Balance turn.attempt_id s.ledger.total_attempts _ status ep.resource_key leaked (
        settle-Balance turn.attempt_id s.ledger.total_attempts s.calls setup.has_budget_limit amount
          (some ep.resource_key) h)

  give_up-Settled :
      (c : FailureClassification) (s : Progress) → Settled s → Settled (Failure.give_up ep c s)
  unfolding Failure.give_up Attempts.mark_fallback
  give_up-Settled c s h =
      push_all-Balance none none none s.ledger.total_attempts
        (Failure.cooldown_calls ep (Failure.cooldown_of c)) s.calls
        (cooldown-Neutral ep (Failure.cooldown_of c)) h

  back_off-Settled :
      (c : FailureClassification) (s : Progress)
      → Settled s
      → Settled (Failure.back_off setup turn ep c s)
  unfolding Failure.back_off
  back_off-Settled c s h =
      let d =
        compute_backoff_seconds setup.retry turn.jittered (Attempts.attempts_on ep.id s.ledger)
          c.retry_after in
      if_split Settled (delay_lt d (milliseconds (remaining_ms setup.deadline turn.backoff_time)))
        (λ room.
          push_all-Balance none none none s.ledger.total_attempts
            (Model.waits d ∷ Failure.lane_success ep.lane_key) s.calls
            (refl, lane_success-Neutral ep.lane_key) h)
        (λ late. give_up-Settled c s h)

  decide-Settled :
      (c : FailureClassification) (s : Progress)
      → Settled s
      → EndsIn Settled Settled (Failure.decide setup turn ep c s)
  unfolding Failure.decide
  decide-Settled c s h =
      let can = Attempts.can_attempt_endpoint ep.id s.ledger in
      let P = EndsIn Settled Settled in
      if_split P (Failure.is_output_cap c.reason && not (has_id ep.id s.output_cap_retried) && can)
        (λ capped. h)
        (λ no_cap.
          if_split P
            (Failure.is_too_large c.reason
              && not (Failure.is_there (Dict.lookup ep.id s.window_shrink))
              && can)
            (λ large. h)
            (λ fits.
              if_split P (not c.retryable || not can)
                (λ over. if_split P c.should_fallback (λ yes'. give_up-Settled c s h) (λ no'. h))
                (λ again. back_off-Settled c s h)))

  abbrev pub Dispatched : Progress → Type 0
  Dispatched = IsBalanced reserved (some ep.resource_key) (some turn.attempt_id)

  record_failure-Settled :
      (status : ℕ) (c : FailureClassification) (s : Progress)
      → Dispatched s
      → Settled (Failure.record_failure setup turn ep status c s)
  unfolding Failure.record_failure Failure.failure_calls push_all
  record_failure-Settled status c s h =
      let told =
        failure-Balance reserved ep.resource_key turn.attempt_id s.ledger.total_attempts s.calls c
          h in
      let rest =
        Failure.billing_calls ep c
        ++ Failure.dead_calls ep c
        ++ Failure.lane_failure ep.lane_key c in
      close_attempt-Settled (some c) Model.failed turn.reserved_amount
        (emit_all (Failure.failure_calls ep status c) s) refl
        (push_all-Balance reserved none (some turn.attempt_id) s.ledger.total_attempts
          (Model.health_failure ep.id (some status) none (Failure.quota_of c) c.is_permanent ∷ rest)
          (Model.breaker_failure ep.resource_key c ∷ s.calls) (refl, failure-Neutral ep c) told)

  after_failure-Settled :
      (status : ℕ) (c : FailureClassification) (s : Progress)
      → Dispatched s
      → EndsIn Settled Settled (Failure.after_failure setup turn ep status c s)
  unfolding Failure.after_failure Failure.rotate_key
  after_failure-Settled status c s h =
      if_split (EndsIn Settled Settled)
        (Failure.is_plain_limit c.reason && Failure.has_key turn.key_id && turn.has_alternative_key)
        (λ rotated.
          leak_attempt-Settled (some c) Model.key_rotated_429 turn.reserved_amount
            (emit_all (Failure.key_call turn.key_id c.retry_after) s) refl
            (push_all-Balance reserved (some ep.resource_key) (some turn.attempt_id)
              s.ledger.total_attempts (Failure.key_call turn.key_id c.retry_after) s.calls
              (key-Neutral turn.key_id c.retry_after) h))
        (λ other'.
          decide-Settled c (Failure.record_failure setup turn ep status c s)
            (record_failure-Settled status c s h))

  after_tools-Settled :
      (cost : ℕ) (s : Progress) (verdict : Response.ToolVerdict)
      → Dispatched s
      → EndsIn Settled Settled (Response.after_tools setup turn ep cost s verdict)
  unfolding Response.after_tools push_all
  after_tools-Settled cost s Response.all_valid h =
      let told =
        success-Balance reserved ep.resource_key turn.attempt_id s.ledger.total_attempts s.calls
          h in
      let last = Model.route_success ep.id ∷ Model.warm_cache ep.id ∷ [] in
      close_attempt-Settled none Model.succeeded cost (emit_all (Response.success_calls ep) s) refl
        (push_all-Balance reserved none (some turn.attempt_id) s.ledger.total_attempts
          (Model.health_success ep.id ∷ (Failure.lane_success ep.lane_key ++ last))
          (Model.breaker_success ep.resource_key ∷ s.calls)
          (
            refl,
            All-append Neutral (Failure.lane_success ep.lane_key) last
                (lane_success-Neutral ep.lane_key) (refl, (refl, tt)),
          )
          told)
  after_tools-Settled cost s Response.one_invalid h =
      after_failure-Settled 200
        (Response.semantic_failure FailoverReason.malformed_tool_call
          "model generated invalid tool arguments")
        s h
  after_tools-Settled cost s Response.blocked h =
      leak_attempt-Settled none Model.blocked_indeterminate_operation turn.reserved_amount s refl h

  after_answer-Settled :
      (s : Progress) (answer : Model.Answer)
      → Dispatched s
      → EndsIn Settled Settled (Response.after_answer setup turn ep s answer)
  unfolding Response.after_answer
  after_answer-Settled s (Model.unreadable error) h =
      after_failure-Settled 200 (classify_failure error (some 502) none turn.until_midnight) s h
  after_answer-Settled s (Model.insane is_empty message) h =
      after_failure-Settled 200
        (Response.semantic_failure (Response.insane_reason is_empty) message) s h
  after_answer-Settled s (Model.readable tools cost) h =
      let (cs, verdict) = Response.check_tools ep tools in
      after_tools-Settled cost (emit_all cs s) verdict (
        push_all-Balance reserved (some ep.resource_key) (some turn.attempt_id)
          s.ledger.total_attempts cs s.calls (tools-Neutral ep tools) h)

  pub after_reply-Settled :
      (s : Progress) (reply : Model.Reply)
      → Dispatched s
      → EndsIn Settled Settled (Response.after_reply setup turn ep s reply)
  unfolding Response.after_reply push_all
  after_reply-Settled s (Model.crashes error) h =
      let c = classify_failure error (some 502) none turn.until_midnight in
      let told =
        failure-Balance reserved ep.resource_key turn.attempt_id s.ledger.total_attempts s.calls c
          h in
      close_attempt-Settled (some c) Model.transport_error turn.reserved_amount
        (emit_all (Response.crash_calls ep c) s) refl
        (push_all-Balance reserved none (some turn.attempt_id) s.ledger.total_attempts
          (Model.health_failure ep.id none (some (seconds 30)) none false
            ∷ Model.marks_cooldown ep.id (seconds 30)
            ∷ Failure.lane_failure ep.lane_key c)
          (Model.breaker_failure ep.resource_key c ∷ s.calls)
          (refl, (refl, lane_failure-Neutral ep.lane_key c)) told)
  after_reply-Settled s (Model.refused status error retry_after) h =
      after_failure-Settled status
        (classify_failure error (some status) retry_after turn.until_midnight) s h
  after_reply-Settled s (Model.answered answer) h = after_answer-Settled s answer h
