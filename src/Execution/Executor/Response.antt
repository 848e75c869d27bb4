-- ===== src/Execution/Executor/Response.antt =====
-- What comes back from the provider: a transport error, an error status, or a response whose body and
-- tool calls are checked before it counts as a success.
use durallm.Common.{
  ℕ, Bool, true, false, not, ◌&&◌, none, some, String, List, [], ◌∷◌, ◌++◌, if◌then◌else◌,
}
use durallm.Classifier.Model.{
  semantic_agent_failure, FailoverReason, FailureClassification, no_details,
}
use durallm.Classifier.Rules.{classify_failure}
use durallm.Routing.Selection.{Endpoint}
use durallm.Execution.Executor.Model.{
  Setup, Turn, Progress, Call, breaker_success, breaker_failure, transport_error, succeeded,
  blocked_indeterminate_operation, health_success, health_failure, marks_cooldown, tool_outcome,
  registers_tool, replays_tool, tool_indeterminate, tool_failed, tool_validated, route_success,
  warm_cache, ToolCheck, Answer, unreadable, insane, readable, Reply, crashes, refused, answered,
  End, responds, raises, upstream_error, indeterminate_operation, emit_all,
}
use durallm.Execution.Executor.Delays.{seconds}
use durallm.Execution.Executor.Failure.{lane_success, lane_failure, close_attempt, after_failure}

pub data ToolVerdict : Type 0 where
  all_valid one_invalid blocked : ToolVerdict

-- One tool call: registered, replayed from its receipt or blocked by an operation whose outcome is
-- unknown, and then validated.
abbrev pub checked : Endpoint → ToolCheck → List Call × ToolVerdict
checked ep t =
    let id = t.ledger_call_id in
    let seen = registers_tool id ∷ (if t.has_receipt then replays_tool id ∷ [] else []) in
    if not t.has_receipt && t.is_indeterminate
    then (registers_tool id ∷ tool_indeterminate id ∷ [], blocked)
    else if t.is_executable
    then (seen ++ tool_outcome ep.id true ∷ tool_validated id ∷ [], all_valid)
    else (seen ++ tool_outcome ep.id false ∷ tool_failed id ∷ [], one_invalid)

-- The loop over the tool calls ends at the first one that is not valid.
abbrev pub followed : List Call × ToolVerdict → List Call × ToolVerdict → List Call × ToolVerdict
followed (cs, all_valid) (cs', verdict) = (cs ++ cs', verdict)
followed (cs, one_invalid) rest = (cs, one_invalid)
followed (cs, blocked) rest = (cs, blocked)

unfoldable pub check_tools : Endpoint → List ToolCheck → List Call × ToolVerdict
check_tools ep [] = ([], all_valid)
check_tools ep (t ∷ ts) = followed (checked ep t) (check_tools ep ts)

-- A response of status 200 that is no success of the agent
abbrev pub semantic_failure : FailoverReason → String → FailureClassification
semantic_failure reason message = record {
  category = semantic_agent_failure;
  reason = reason;
  should_fallback = true;
  retryable = false;
  poisons_health = false;
  is_permanent = false;
  status_code = some 200;
  retry_after = none;
  message = message;
  details = no_details;
}

abbrev pub success_calls : Endpoint → List Call
success_calls ep =
    breaker_success ep.resource_key
    ∷ health_success ep.id
    ∷ (lane_success ep.lane_key ++ route_success ep.id ∷ warm_cache ep.id ∷ [])

unfoldable pub after_tools : Setup → Turn → Endpoint → ℕ → Progress → ToolVerdict → End
unfolding close_attempt after_failure
after_tools setup turn ep cost s all_valid =
    responds (close_attempt setup turn ep none succeeded cost (emit_all (success_calls ep) s))
after_tools setup turn ep cost s one_invalid =
    after_failure setup turn ep 200
      (semantic_failure FailoverReason.malformed_tool_call "model generated invalid tool arguments")
      s
after_tools setup turn ep cost s blocked =
    raises indeterminate_operation
      (close_attempt setup turn ep none blocked_indeterminate_operation turn.reserved_amount s)

abbrev pub insane_reason : Bool → FailoverReason
insane_reason true = FailoverReason.empty_completion
insane_reason false = FailoverReason.output_cap_exceeded

unfoldable pub after_answer : Setup → Turn → Endpoint → Progress → Answer → End
unfolding after_failure after_tools check_tools
after_answer setup turn ep s (unreadable error) =
    after_failure setup turn ep 200 (classify_failure error (some 502) none turn.until_midnight) s
after_answer setup turn ep s (insane is_empty message) =
    after_failure setup turn ep 200 (semantic_failure (insane_reason is_empty) message) s
after_answer setup turn ep s (readable tools cost) =
    let (cs, verdict) = check_tools ep tools in
    after_tools setup turn ep cost (emit_all cs s) verdict

abbrev pub crash_calls : Endpoint → FailureClassification → List Call
crash_calls ep c =
    breaker_failure ep.resource_key c
    ∷ health_failure ep.id none (some (seconds 30)) none false
    ∷ marks_cooldown ep.id (seconds 30)
    ∷ lane_failure ep.lane_key c

-- A transport error is raised again; its reservation is settled, since bytes may have been sent.
unfoldable pub after_reply : Setup → Turn → Endpoint → Progress → Reply → End
unfolding after_failure after_answer close_attempt lane_failure
after_reply setup turn ep s (crashes error) =
    let c = classify_failure error (some 502) none turn.until_midnight in
    raises upstream_error (
      close_attempt setup turn ep (some c) transport_error turn.reserved_amount
        (emit_all (crash_calls ep c) s))
after_reply setup turn ep s (refused status error retry_after) =
    after_failure setup turn ep status
      (classify_failure error (some status) retry_after turn.until_midnight) s
after_reply setup turn ep s (answered answer) = after_answer setup turn ep s answer
