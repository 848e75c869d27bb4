-- ===== src/Execution/Executor/Rollover.antt =====
-- When no candidate is left: the wait for a temporary rate limit to pass.
use durallm.Common.{
  ℕ, ◌+◌, ◌-◌, Bool, true, false, not, ◌&&◌, Option, none, some, String, List, [], ◌∷◌, ◌++◌, ltb,
  if◌then◌else◌, ◌==◌, string_eq,
}
use durallm.Classifier.Model.{Delay, FailureClassification}
use durallm.Routing.Selection.{Endpoint, has_id}
use durallm.Execution.Attempts
use durallm.Execution.Deadline.{remaining_ms}
use durallm.Execution.Executor.Model.{
  Setup, Turn, Progress, AttemptRecord, Call, waits, lane_available, rate_limit_rollover_retry, End,
  continues, raises, no_healthy_route, emit_all, is_rate_limit,
}
use durallm.Execution.Executor.Delays.{
  seconds, milliseconds, delay_lt, delay_min, delay_max, shortest,
}

abbrev is_short : Option Delay → Bool
is_short none = true
is_short (some d) = delay_lt d (seconds 300)

abbrev is_temporary : Option FailureClassification → Bool
is_temporary none = false
is_temporary (some f) = is_rate_limit f.reason && not f.is_permanent && is_short f.retry_after

-- `[retry_after]` if it is there and is not 0.
abbrev given_delay : Option FailureClassification → List Delay
given_delay none = []
given_delay (some f) = elim f.retry_after [
  | none ↦ []
  | some d ↦ if ltb 0 d.num then d ∷ [] else []
]

-- The excluded endpoints that are rate limited for less than five minutes, and their delays.
unfoldable pub rate_limited :
    List String → List AttemptRecord → List String × List Delay → List String × List Delay
rate_limited excluded [] (eps, delays) = (eps, delays)
rate_limited excluded (att ∷ atts) (eps, delays) = rate_limited excluded atts (
    if has_id att.endpoint_id excluded
      && is_temporary att.failure
      && not (has_id att.endpoint_id eps)
    then (eps ++ att.endpoint_id ∷ [], delays ++ given_delay att.failure)
    else (eps, delays))

-- `excluded_endpoints.remove`, of one occurrence
abbrev pub remove_one : String → List String → List String
remove_one id [] = []
remove_one id (i ∷ ids) = elim (i == id) [ true ↦ ids | false ↦ i ∷ remove_one id ids ]

abbrev pub readmit : List String → List String → List String
readmit [] excluded = excluded
readmit (ep ∷ eps) excluded = readmit eps (remove_one ep excluded)

abbrev pub lane_call : Option String → List Call
lane_call none = []
lane_call (some lane) = lane_available lane ∷ []

abbrev pub lane_calls : List Endpoint → String → List Call
lane_calls [] id = []
lane_calls (ep ∷ eps) id = (if ep.id == id then lane_call ep.lane_key else []) ++ lane_calls eps id

abbrev pub all_lane_calls : List Endpoint → List String → List Call
all_lane_calls endpoints [] = []
all_lane_calls endpoints (id ∷ ids) = lane_calls endpoints id ++ all_lane_calls endpoints ids

-- `max(2.0, min(target_delay, 15.0, rem_sec - 5.0))`
unfoldable pub rollover_delay : ℕ → List Delay → Delay
unfolding shortest
rollover_delay remaining delays =
    delay_max (seconds 2)
      (delay_min (delay_min (shortest delays) (seconds 15)) (milliseconds (remaining - 5000)))

abbrev pub max_rate_limit_waits : ℕ
max_rate_limit_waits = 3

abbrev pub is_empty : List String → Bool
is_empty [] = true
is_empty (x ∷ xs) = false

unfoldable pub roll_over : Setup → List String × List Delay → ℕ → Progress → Progress
unfolding rollover_delay
roll_over setup (eps, delays) remaining s =
    emit_all (waits (rollover_delay remaining delays) ∷ all_lane_calls setup.endpoints eps)
      (record s {
        rate_limit_waits = s.rate_limit_waits + 1;
        excluded_endpoints = readmit eps s.excluded_endpoints;
        ledger = Attempts.reset_for_rate_limit_retry eps s.ledger;
        last_failure_reason = some rate_limit_rollover_retry;
      })

-- The branch of a round where no candidate is selected
unfoldable pub without_candidate : Setup → Turn → Progress → End
unfolding rate_limited roll_over
without_candidate setup turn s =
    let limited = rate_limited s.excluded_endpoints s.attempts ([], []) in
    let remaining = remaining_ms setup.deadline turn.wait_time in
    if not (is_empty limited.0)
      && ltb s.rate_limit_waits max_rate_limit_waits
      && ltb 10000 remaining
    then continues (roll_over setup limited remaining s)
    else raises no_healthy_route s
