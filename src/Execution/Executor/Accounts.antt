-- ===== src/Execution/Executor/Accounts.antt =====
-- The books of `execute` in durallm/execution/executor.py, from its start to its end.
use durallm.Common.{
  refl, inl, inr, Bool, not, ◌&&◌, Option, none, some, String, List, [], ◌∷◌, if_split, Bool-cases,
  Option-cases, ◌==◌, string_eq, ltb,
}
use durallm.Common.Fallible.{Fallible-cases}
use durallm.Routing.Selection.{Endpoint}
use durallm.Execution.Attempts
use durallm.Execution.Deadline.{per_attempt_timeout_for_provider, remaining_ms, is_expired}
use durallm.Execution.Executor.Model
use durallm.Execution.Executor.Model.{
  Setup, Turn, Progress, Call, Flow, End, goes_on, continues, responds, raises, ◌>>=◌, emit,
  emit_if, emit_all, push_all, exclude, AttemptStatus,
}
use durallm.Execution.Executor.Ensures.{Ensures, EndsIn, Ensures-bind}
use durallm.Execution.Executor.Kinds.{lanes-Neutral}
use durallm.Execution.Executor.Rollover
use durallm.Execution.Executor.Sizing
use durallm.Execution.Executor.Admission
use durallm.Execution.Executor.Loop
use durallm.Execution.Executor.Loop.{Outcome, returned, failed, unfinished, execute, goes_round}
use durallm.Execution.Executor.Balance.{
  Balance, IsBalanced, Settled, push_all-Balance, release-Balance, take-Balance, acquire-Balance,
  dispatch-Balance,
}
use durallm.Execution.Executor.Settles.{reserved, Dispatched, after_reply-Settled}

module _ (setup : Setup) (turn : Turn) where
  abbrev Keeps : (Progress → Type 0) → Flow Progress → Type 0
  Keeps = Ensures Settled Settled

  reserve-Keeps :
      (ep : Endpoint) (s : Progress)
      → Settled s
      → Keeps
          (IsBalanced (reserved setup turn ep) none none)
          (Admission.reserve_budget setup turn ep s)
  unfolding Admission.reserve_budget
  reserve-Keeps ep s h = elim (Bool-cases setup.has_budget_limit) [
    | inr free ↦ rw (free, Admission.reserve_budget) h
    | inl paid ↦
        rw (paid, Admission.reserve_budget)
          (if_split (Keeps (IsBalanced (some turn.attempt_id) none none)) turn.is_reserved
            (λ yes'.
              take-Balance turn.attempt_id s.ledger.total_attempts s.calls turn.reserved_amount h)
            (λ no'. h))
  ]

  acquire-Keeps :
      (ep : Endpoint) (s : Progress)
      → IsBalanced (reserved setup turn ep) none none s
      → Keeps
          (IsBalanced (reserved setup turn ep) (some ep.resource_key) none)
          (Admission.acquire_permission setup turn ep s)
  unfolding Admission.acquire_permission
  acquire-Keeps ep s h =
      if_split (Keeps (IsBalanced (reserved setup turn ep) (some ep.resource_key) none))
        turn.is_admitted
        (λ yes'.
          acquire-Balance (reserved setup turn ep) ep.resource_key turn.attempt_id
            s.ledger.total_attempts s.calls h)
        (λ no'.
          release-Balance turn.attempt_id s.ledger.total_attempts s.calls setup.has_budget_limit h)

  timeout-Keeps :
      (ep : Endpoint) (s : Progress)
      → Settled s
      → Keeps Settled (Admission.attempt_timeout setup turn ep s)
  unfolding Admission.attempt_timeout
  timeout-Keeps ep s h =
      elim (Fallible-cases (
        per_attempt_timeout_for_provider setup.deadline ep.provider setup.estimated_tokens
          turn.dispatch_time turn.dispatch_time)) [
            | inl (ms, e) ↦ rw (e, Admission.attempt_timeout) h
            | inr (error, e) ↦ rw (e, Admission.attempt_timeout) h
          ]

  admit-Keeps :
      (ep : Endpoint) (s : Progress)
      → Settled s
      → Keeps (Dispatched setup turn ep) (Admission.admit setup turn ep s)
  unfolding Admission.admit push_all
  admit-Keeps ep s h = Ensures-bind Settled Settled Settled _ _ _ (timeout-Keeps ep s h) λ s1 h1.
      Ensures-bind Settled Settled (IsBalanced (reserved setup turn ep) none none) _ _ _
        (reserve-Keeps ep s1 h1)
        λ s2 h2.
          Ensures-bind Settled Settled
            (IsBalanced (reserved setup turn ep) (some ep.resource_key) none) _ _ _
            (acquire-Keeps ep s2 h2)
            λ s3 h3.
              dispatch-Balance (reserved setup turn ep) ep.resource_key turn.attempt_id
                s3.ledger.total_attempts s3.calls ep.id h3

  validate-Keeps :
      (ep : Endpoint) (s : Progress) → Settled s → Keeps Settled (Admission.validate ep s)
  unfolding Admission.validate
  validate-Keeps ep s h = elim (Option-cases (Attempts.validate_next_candidate ep.id s.ledger)) [
    | inl e ↦ rw (e, Admission.validate) h
    | inr (error, e) ↦ rw (e, Admission.validate) h
  ]

  fitted-Keeps :
      (ep : Endpoint) (shrunk : Bool) (o : Option Bool) (s : Progress)
      → Settled s
      → Keeps Settled (Sizing.fitted ep shrunk s o)
  fitted-Keeps ep shrunk none s h = h
  fitted-Keeps ep shrunk (some was_compacted) s h =
      if_split (Keeps Settled) (shrunk && not was_compacted) (λ stuck. h) (λ ok. h)

  adapt-Keeps :
      (ep : Endpoint) (s : Progress)
      → Settled s
      → Keeps Settled (Sizing.adapt setup.estimated_tokens turn ep s)
  unfolding Sizing.adapt
  adapt-Keeps ep s h = fitted-Keeps ep _ _ s h

  switched-Settled :
      (ep : Endpoint) (s : Progress) (source : Option String)
      → Settled s
      → Settled (Sizing.switched ep.id s source)
  unfolding Attempts.mark_fallback push_all
  switched-Settled ep s none h = h
  switched-Settled ep s (some source) h =
      let neutral_call =
        push_all-Balance none none none s.ledger.total_attempts
          (Model.plans_failover source ep.id ∷ []) s.calls (refl, tt) h in
      if_split Settled (source == ep.id) (λ same. h)
        (λ other'.
          if_split
            (λ (t : Progress).
              Balance none none none t.ledger.total_attempts
                (Model.plans_failover source ep.id ∷ t.calls))
            s.fallback_marked (λ counted. neutral_call) (λ hop. neutral_call))

  plan-Settled : (ep : Endpoint) (s : Progress) → Settled s → Settled (Sizing.plan_failover ep s)
  unfolding Sizing.plan_failover
  plan-Settled ep s h = switched-Settled ep s s.last_endpoint h

  try_endpoint-Settled :
      (ep : Endpoint) (s : Progress)
      → Settled s
      → EndsIn Settled Settled (Loop.try_endpoint setup turn ep s)
  unfolding Loop.try_endpoint
  try_endpoint-Settled ep s h =
      Ensures-bind Settled Settled Settled _ _ _ (validate-Keeps ep s h) λ s1 h1.
        Ensures-bind Settled Settled Settled _ _ _ (adapt-Keeps ep s1 h1) λ s2 h2.
          Ensures-bind Settled Settled (Dispatched setup turn ep) _ _ _
            (admit-Keeps ep (Sizing.plan_failover ep s2) (plan-Settled ep s2 h2))
            λ s3 h3. after_reply-Settled setup turn ep s3 turn.reply h3

  without_candidate-Settled :
      (s : Progress) → Settled s → EndsIn Settled Settled (Rollover.without_candidate setup turn s)
  unfolding Rollover.without_candidate Rollover.roll_over Attempts.reset_for_rate_limit_retry
  without_candidate-Settled s h =
      let limited = Rollover.rate_limited s.excluded_endpoints s.attempts ([], []) in
      let remaining = remaining_ms setup.deadline turn.wait_time in
      if_split (EndsIn Settled Settled)
        (not (Rollover.is_empty limited.0)
          && ltb s.rate_limit_waits Rollover.max_rate_limit_waits
          && ltb 10000 remaining)
        (λ waits.
          push_all-Balance none none none s.ledger.total_attempts
            (Model.waits (Rollover.rollover_delay remaining limited.1)
              ∷ Rollover.all_lane_calls setup.endpoints limited.0)
            s.calls (refl, lanes-Neutral setup.endpoints limited.0) h)
        (λ none_left. h)

  with_candidate-Settled :
      (s : Progress) (o : Option Endpoint)
      → Settled s
      → EndsIn Settled Settled (Loop.with_candidate setup turn s o)
  with_candidate-Settled s none h = without_candidate-Settled s h
  with_candidate-Settled s (some ep) h = try_endpoint-Settled ep s h

  round-Settled : (s : Progress) → Settled s → EndsIn Settled Settled (Loop.round setup turn s)
  unfolding Loop.round
  round-Settled s h = elim (Bool-cases (is_expired setup.deadline turn.check_time)) [
    | inl late ↦ rw (late, Loop.check_deadline) h
    | inr early ↦ rw (early, Loop.check_deadline) (with_candidate-Settled s _ h)
  ]

abbrev pub variables : Outcome → Progress
variables (returned s) = s
variables (failed e s) = s
variables (unfinished s) = s

after_round-Settled :
    (rest : Progress → Outcome) (m : End)
    → EndsIn Settled Settled m
    → ((s : Progress) → Settled s → Settled (variables (rest s)))
    → Settled (variables (Loop.after_round rest m))
after_round-Settled rest (goes_on none_left) h k = absurd none_left
after_round-Settled rest (continues s) h k = k s h
after_round-Settled rest (responds s) h k = h
after_round-Settled rest (raises e s) h k = h

-- Whatever the components and the providers answer, however `execute` ends, from a start with
-- nothing under way its calls are in order and leave nothing under way, if no call on the attempt
-- store raises: each reservation of the budget is released, before any dispatch, or settled, under
-- its own id; each permission of a breaker is reported to that breaker as success or failure, but
-- for the attempts that end in a key rotation or a blocked operation, which the breaker never hears
-- of; each attempt is stored before its dispatch and finished under its own id after its
-- reservation was settled; no two of a kind are under way at once; and the ledger counts the
-- attempts that were finished.
pub execute-Settled :
    (setup : Setup) (turns : List Turn) (s : Progress)
    → Settled s
    → Settled (variables (execute setup turns s))
unfolding execute
execute-Settled setup [] s h = h
execute-Settled setup (turn ∷ turns) s h = elim (Bool-cases (goes_round setup turn s)) [
  | inr stops ↦ rw (stops, execute) h
  | inl goes ↦
      rw (goes, execute)
        (after_round-Settled (execute setup turns) (Loop.round setup turn s)
          (round-Settled setup turn s h) (λ s' h'. execute-Settled setup turns s' h'))
]
