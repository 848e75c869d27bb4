-- ===== src/Execution/Executor/Spends.antt =====
-- What the parts of a round change of the attempts, the limit, the exclusions and the waits.
use durallm.Common.Dict
use durallm.Execution.Deadline.{remaining_ms}
use durallm.Execution.Executor.Delays.{delay_lt, milliseconds, compute_backoff_seconds}
use durallm.Common.{
  ℕ, ◌+◌, ◌≡◌, refl, ◌∙◌, true, not, ◌&&◌, ◌||◌, Option, none, some, String, List, [], ◌∷◌,
  if◌then◌else◌, ◌==◌, string_eq, arith, if_split,
}
use durallm.Classifier.Model.{FailureClassification, FailoverReason}
use durallm.Classifier.Rules.{classify_failure}
use durallm.Routing.Selection.{Endpoint, has_id}
use durallm.Execution.Attempts
use durallm.Execution.Executor.Model
use durallm.Execution.Executor.Model.{
  Setup, Turn, Progress, Flow, goes_on, continues, responds, raises, ◌>>=◌, emit, emit_if, emit_all,
  exclude, record_attempt, Call,
}
use durallm.Execution.Executor.Ensures.{EndsIn, EndsIn-map}
use durallm.Execution.Executor.Failure
use durallm.Execution.Executor.Response

-- Every excluded endpoint stays excluded.
abbrev pub Grows : List String → List String → Type 0
Grows ids ids' = (id : String) → has_id id ids ≡ true → has_id id ids' ≡ true

-- What of the loop's variables decides how many rounds are left.
pub record Levels : Type 0 where
  pub limit : ℕ
  pub total : ℕ
  pub waited : ℕ
  pub excluded : List String

abbrev pub levels : Progress → Levels
levels s = record {
  limit = s.ledger.policy.max_total_attempts;
  total = s.ledger.total_attempts;
  waited = s.rate_limit_waits;
  excluded = s.excluded_endpoints;
}

pub record Uses (n : ℕ) (l l' : Levels) : Type 0 where
  pub max_total : l'.limit ≡ l.limit
  pub attempts : l'.total ≡ l.total + n
  pub waits : l'.waited ≡ l.waited
  pub grows : Grows l.excluded l'.excluded

-- The attempts that were made between two points of a round, with nothing readmitted.
abbrev pub Spends : ℕ → Progress → Progress → Type 0
Spends n s s' = Uses n (levels s) (levels s')

pub Grows-cons : (id : String) (ids ids' : List String) → Grows ids ids' → Grows ids (id ∷ ids')
Grows-cons id ids ids' g i h = ground (arith, g i h)

Grows-add_excluded :
    (id : String) (ids ids' : List String)
    → Grows ids ids'
    → Grows ids (Failure.add_excluded id ids')
Grows-add_excluded id ids ids' g =
    if_split (Grows ids) (has_id id ids') (λ in_it. g) (λ new. Grows-cons id ids ids' g)

Grows-exclude_provider :
    (provider : String) (eps : List Endpoint) (ids ids' : List String)
    → Grows ids ids'
    → Grows ids (Failure.exclude_provider provider eps ids')
unfolding Failure.exclude_provider
Grows-exclude_provider provider [] ids ids' g = g
Grows-exclude_provider provider (ep ∷ eps) ids ids' g = Grows-exclude_provider provider eps ids _ (
    if_split (Grows ids) (ep.provider == provider) (λ same. Grows-add_excluded ep.id ids ids' g)
      (λ other. g))

Grows-excluded_after :
    (endpoints : List Endpoint) (ep : Endpoint) (c : FailureClassification) (ids : List String)
    → Grows ids (Failure.excluded_after endpoints ep c ids)
unfolding Failure.excluded_after
Grows-excluded_after endpoints ep c ids =
    let wide = Failure.is_billing c.reason && Failure.is_account_wide ep c in
    let all' = Failure.exclude_provider ep.provider endpoints ids in
    let g : Grows ids (if wide then all' else ids) =
      if_split (Grows ids) wide
        (λ yes'. Grows-exclude_provider ep.provider endpoints ids ids (λ i h. h)) (λ no' i h. h) in
    if_split (Grows ids) (Failure.is_gone c)
      (λ gone. Grows-add_excluded ep.id ids (if wide then all' else ids) g) (λ there. g)

pub Spends-refl : (s : Progress) → Spends 0 s s
Spends-refl s = record { max_total = refl; attempts = omega arith; waits = refl; grows = λ i h. h }

pub Spends-trans :
    (n m : ℕ) (s s' s'' : Progress) → Spends n s s' → Spends m s' s'' → Spends (n + m) s s''
Spends-trans n m s s' s'' h k = record {
  max_total = k.max_total ∙ h.max_total;
  attempts = omega arith;
  waits = k.waits ∙ h.waits;
  grows = λ i x. k.grows i (h.grows i x);
}

close_attempt-Spends :
    (setup : Setup) (turn : Turn) (ep : Endpoint) (failure : Option FailureClassification)
    (status : Model.AttemptStatus) (amount : ℕ) (s s' : Progress)
    → Spends 0 s s'
    → Spends 1 s (Failure.close_attempt setup turn ep failure status amount s')
unfolding Failure.close_attempt Attempts.record_attempt
close_attempt-Spends setup turn ep failure status amount s s' h = record {
  max_total = h.max_total;
  attempts = omega arith;
  waits = h.waits;
  grows = h.grows;
}

pub emit_all-Spends :
    (cs : List Call) (n : ℕ) (s s' : Progress) → Spends n s s' → Spends n s (emit_all cs s')
emit_all-Spends cs n s s' h = record {
  max_total = h.max_total;
  attempts = h.attempts;
  waits = h.waits;
  grows = h.grows;
}

record_failure-Spends :
    (setup : Setup) (turn : Turn) (ep : Endpoint) (status : ℕ) (c : FailureClassification)
    (s : Progress)
    → Spends 1 s (Failure.record_failure setup turn ep status c s)
unfolding Failure.record_failure Failure.close_attempt Attempts.record_attempt
record_failure-Spends setup turn ep status c s = record {
  max_total = refl;
  attempts = refl;
  waits = refl;
  grows = Grows-excluded_after setup.endpoints ep c s.excluded_endpoints;
}

give_up-Spends :
    (ep : Endpoint) (c : FailureClassification) (s : Progress) → Spends 0 s (Failure.give_up ep c s)
unfolding Failure.give_up Attempts.mark_fallback
give_up-Spends ep c s = record {
  max_total = refl;
  attempts = omega arith;
  waits = refl;
  grows = Grows-cons ep.id s.excluded_endpoints s.excluded_endpoints (λ i h. h);
}

back_off-Spends :
    (setup : Setup) (turn : Turn) (ep : Endpoint) (c : FailureClassification) (s : Progress)
    → Spends 0 s (Failure.back_off setup turn ep c s)
unfolding Failure.back_off
back_off-Spends setup turn ep c s =
    let d =
      compute_backoff_seconds setup.retry turn.jittered (Attempts.attempts_on ep.id s.ledger)
        c.retry_after in
    if_split (Spends 0 s)
      (delay_lt d (milliseconds (remaining_ms setup.deadline turn.backoff_time)))
      (λ room.
        emit_all-Spends (Model.waits d ∷ Failure.lane_success ep.lane_key) 0 s s (Spends-refl s))
      (λ late. give_up-Spends ep c s)

decide-Spends :
    (setup : Setup) (turn : Turn) (ep : Endpoint) (c : FailureClassification) (s : Progress)
    → EndsIn (Spends 0 s) (Spends 0 s) (Failure.decide setup turn ep c s)
unfolding Failure.decide
decide-Spends setup turn ep c s =
    let can = Attempts.can_attempt_endpoint ep.id s.ledger in
    let P = EndsIn (Spends 0 s) (Spends 0 s) in
    if_split P (Failure.is_output_cap c.reason && not (has_id ep.id s.output_cap_retried) && can)
      (λ capped. record {
        max_total = refl;
        attempts = omega arith;
        waits = refl;
        grows = λ i h. h;
      })
      (λ no_cap.
        if_split P
          (Failure.is_too_large c.reason
            && not (Failure.is_there (Dict.lookup ep.id s.window_shrink))
            && can)
          (λ large. record {
            max_total = refl;
            attempts = omega arith;
            waits = refl;
            grows = λ i h. h;
          })
          (λ fits.
            if_split P (not c.retryable || not can)
              (λ over.
                if_split P c.should_fallback (λ yes'. give_up-Spends ep c s) (λ no'. Spends-refl s))
              (λ again. back_off-Spends setup turn ep c s)))

-- A failure costs one attempt.
after_failure-Spends :
    (setup : Setup) (turn : Turn) (ep : Endpoint) (status : ℕ) (c : FailureClassification)
    (s : Progress)
    → EndsIn (Spends 1 s) (Spends 1 s) (Failure.after_failure setup turn ep status c s)
unfolding Failure.after_failure Failure.rotate_key
after_failure-Spends setup turn ep status c s =
    let P = EndsIn (Spends 1 s) (Spends 1 s) in
    let s' = Failure.record_failure setup turn ep status c s in
    let first = record_failure-Spends setup turn ep status c s in
    if_split P
      (Failure.is_plain_limit c.reason && Failure.has_key turn.key_id && turn.has_alternative_key)
      (λ rotated.
        close_attempt-Spends setup turn ep (some c) Model.key_rotated_429 turn.reserved_amount s
          (emit_all (Failure.key_call turn.key_id c.retry_after) s)
          (emit_all-Spends (Failure.key_call turn.key_id c.retry_after) 0 s s (Spends-refl s)))
      (λ other.
        EndsIn-map (Failure.decide setup turn ep c s') (λ t h. Spends-trans 1 0 s s' t first h)
          (λ t h. Spends-trans 1 0 s s' t first h) (decide-Spends setup turn ep c s'))

after_tools-Spends :
    (setup : Setup) (turn : Turn) (ep : Endpoint) (cost : ℕ) (s : Progress)
    (verdict : Response.ToolVerdict)
    → EndsIn (Spends 1 s) (Spends 1 s) (Response.after_tools setup turn ep cost s verdict)
unfolding Response.after_tools
after_tools-Spends setup turn ep cost s Response.all_valid =
    close_attempt-Spends setup turn ep none Model.succeeded cost s
      (emit_all (Response.success_calls ep) s)
      (emit_all-Spends (Response.success_calls ep) 0 s s (Spends-refl s))
after_tools-Spends setup turn ep cost s Response.one_invalid =
    after_failure-Spends setup turn ep 200
      (Response.semantic_failure FailoverReason.malformed_tool_call
        "model generated invalid tool arguments")
      s
after_tools-Spends setup turn ep cost s Response.blocked =
    close_attempt-Spends setup turn ep none Model.blocked_indeterminate_operation
      turn.reserved_amount s s (Spends-refl s)

after_answer-Spends :
    (setup : Setup) (turn : Turn) (ep : Endpoint) (s : Progress) (answer : Model.Answer)
    → EndsIn (Spends 1 s) (Spends 1 s) (Response.after_answer setup turn ep s answer)
unfolding Response.after_answer
after_answer-Spends setup turn ep s (Model.unreadable error) =
    after_failure-Spends setup turn ep 200
      (classify_failure error (some 502) none turn.until_midnight) s
after_answer-Spends setup turn ep s (Model.insane is_empty message) =
    after_failure-Spends setup turn ep 200
      (Response.semantic_failure (Response.insane_reason is_empty) message) s
after_answer-Spends setup turn ep s (Model.readable tools cost) =
    let (cs, verdict) = Response.check_tools ep tools in
    EndsIn-map (Response.after_tools setup turn ep cost (emit_all cs s) verdict)
      (λ t h. Spends-trans 0 1 s (emit_all cs s) t (emit_all-Spends cs 0 s s (Spends-refl s)) h)
      (λ t h. Spends-trans 0 1 s (emit_all cs s) t (emit_all-Spends cs 0 s s (Spends-refl s)) h)
      (after_tools-Spends setup turn ep cost (emit_all cs s) verdict)

-- An attempt that was dispatched costs one attempt, whatever comes back.
pub after_reply-Spends :
    (setup : Setup) (turn : Turn) (ep : Endpoint) (s : Progress) (reply : Model.Reply)
    → EndsIn (Spends 1 s) (Spends 1 s) (Response.after_reply setup turn ep s reply)
unfolding Response.after_reply
after_reply-Spends setup turn ep s (Model.crashes error) =
    let c = classify_failure error (some 502) none turn.until_midnight in
    close_attempt-Spends setup turn ep (some c) Model.transport_error turn.reserved_amount s
      (emit_all (Response.crash_calls ep c) s)
      (emit_all-Spends (Response.crash_calls ep c) 0 s s (Spends-refl s))
after_reply-Spends setup turn ep s (Model.refused status error retry_after) =
    after_failure-Spends setup turn ep status
      (classify_failure error (some status) retry_after turn.until_midnight) s
after_reply-Spends setup turn ep s (Model.answered answer) =
    after_answer-Spends setup turn ep s answer
