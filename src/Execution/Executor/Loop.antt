-- ===== src/Execution/Executor/Loop.antt =====
-- The rounds of `execute`. The rounds still to come are given by what they read; that they are enough
-- is proved in Execution/Executor/Ends.
use durallm.Common.{
  Bool, true, false, not, ◌&&◌, Option, none, some, List, [], ◌∷◌, leb, if◌then◌else◌,
}
use durallm.Routing.Selection.{Endpoint, select_candidate}
use durallm.Execution.Deadline.{is_expired}
use durallm.Execution.Executor.Model.{
  Setup, Turn, Progress, End, Flow, goes_on, continues, responds, raises, ◌>>=◌, ExecutorError,
  no_healthy_route, deadline_exceeded,
}
use durallm.Execution.Executor.Rollover.{without_candidate}
use durallm.Execution.Executor.Sizing.{adapt, plan_failover}
use durallm.Execution.Executor.Admission.{validate, admit}
use durallm.Execution.Executor.Response.{after_reply}

-- A round for the endpoint that was selected
unfoldable pub try_endpoint : Setup → Turn → Endpoint → Progress → End
unfolding validate adapt plan_failover admit after_reply
try_endpoint setup turn ep s = do
  s1 ← validate ep s
  s2 ← adapt setup.estimated_tokens turn ep s1
  s3 ← admit setup turn ep (plan_failover ep s2)
  after_reply setup turn ep s3 turn.reply

-- `deadline.check()`
abbrev pub check_deadline : Setup → Turn → Progress → Flow Progress
check_deadline setup turn s =
    if is_expired setup.deadline turn.check_time then raises deadline_exceeded s else goes_on s

abbrev pub with_candidate : Setup → Turn → Progress → Option Endpoint → End
with_candidate setup turn s none = without_candidate setup turn s
with_candidate setup turn s (some ep) = try_endpoint setup turn ep s

unfoldable pub round : Setup → Turn → Progress → End
unfolding try_endpoint without_candidate
round setup turn s = do
  s' ← check_deadline setup turn s
  with_candidate setup turn s'
      (select_candidate setup.strategy setup.endpoints turn.view s'.excluded_endpoints)

pub data Outcome : Type 0 where
  returned : Progress → Outcome
  failed : ExecutorError → Progress → Outcome
  unfinished : Progress → Outcome

-- The test of the loop
unfoldable pub goes_round : Setup → Turn → Progress → Bool
goes_round setup turn s =
    not (is_expired setup.deadline turn.guard_time)
    && not (leb s.ledger.policy.max_total_attempts s.ledger.total_attempts)

abbrev pub after_round : (Progress → Outcome) → End → Outcome
after_round rest (goes_on none_left) = absurd none_left
after_round rest (continues s) = rest s
after_round rest (responds s) = returned s
after_round rest (raises e s) = failed e s

unfoldable pub execute : Setup → List Turn → Progress → Outcome
unfolding round goes_round
execute setup [] s = unfinished s
execute setup (turn ∷ turns) s = elim (goes_round setup turn s) [
  | false ↦ failed no_healthy_route s
  | true ↦ after_round (execute setup turns) (round setup turn s)
]
