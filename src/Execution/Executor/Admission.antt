-- ===== src/Execution/Executor/Admission.antt =====
-- What stands between a candidate and its dispatch: the deadline, the budget and the breaker.
use durallm.Common.{not, none, some, if◌then◌else◌}
use durallm.Common.Fallible
use durallm.Routing.Selection.{Endpoint}
use durallm.Execution.Attempts
use durallm.Execution.Deadline.{per_attempt_timeout_for_provider}
use durallm.Execution.Executor.Model.{
  Setup, Turn, Progress, reserves, releases, acquires_permission, prepares, dispatches,
  budget_reservation_denied, Flow, goes_on, continues, raises, ◌>>=◌, deadline_exceeded, emit,
  emit_if, exclude,
}

-- `ledger.validate_next_candidate`; whatever it raises excludes the endpoint.
unfoldable pub validate : Endpoint → Progress → Flow Progress
validate ep s = elim (Attempts.validate_next_candidate ep.id s.ledger) [
  | none ↦ goes_on s
  | some e ↦ continues (exclude ep.id s)
]

-- `deadline.per_attempt_timeout_seconds`
unfoldable pub attempt_timeout : Setup → Turn → Endpoint → Progress → Flow Progress
attempt_timeout setup turn ep s =
    elim (per_attempt_timeout_for_provider setup.deadline ep.provider setup.estimated_tokens
      turn.dispatch_time turn.dispatch_time) [
        | Fallible.returns ms ↦ goes_on s
        | Fallible.raises e ↦ raises deadline_exceeded s
      ]

unfoldable pub reserve_budget : Setup → Turn → Endpoint → Progress → Flow Progress
reserve_budget setup turn ep s =
    if not setup.has_budget_limit
    then goes_on s
    else if turn.is_reserved
    then goes_on (emit (reserves turn.attempt_id turn.reserved_amount) s)
    else continues
        (record (exclude ep.id s) { last_failure_reason = some budget_reservation_denied })

-- The breaker's permission; a refusal gives the reservation back.
unfoldable pub acquire_permission : Setup → Turn → Endpoint → Progress → Flow Progress
acquire_permission setup turn ep s =
    if turn.is_admitted
    then goes_on (emit (acquires_permission ep.resource_key) s)
    else continues (exclude ep.id (emit_if setup.has_budget_limit (releases turn.attempt_id) s))

-- The intent is stored before any byte is sent; that the store raises is not modelled.
unfoldable pub dispatch : Turn → Endpoint → Progress → Progress
dispatch turn ep s = emit (dispatches ep.id) (emit (prepares turn.attempt_id) s)

unfoldable pub admit : Setup → Turn → Endpoint → Progress → Flow Progress
unfolding attempt_timeout reserve_budget acquire_permission dispatch
admit setup turn ep s = do
  s1 ← attempt_timeout setup turn ep s
  s2 ← reserve_budget setup turn ep s1
  s3 ← acquire_permission setup turn ep s2
  goes_on (dispatch turn ep s3)
