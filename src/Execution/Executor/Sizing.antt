-- ===== src/Execution/Executor/Sizing.antt =====
-- The size of the request for an endpoint, and the plan of a failover.
use durallm.Common.{
  ℕ, zero, suc, ◌+◌, ◌-◌, ◌*◌, ◌/◌, min, max, Bool, false, not, ◌&&◌, Option, none, some, String,
  ltb, if◌then◌else◌, ◌==◌, string_eq,
}
use durallm.Common.Dict
use durallm.Routing.Selection.{Endpoint}
use durallm.Execution.Attempts
use durallm.Execution.Executor.Model.{
  Turn, Progress, Ratio, ContextBudget, plans_failover, Flow, goes_on, continues, emit, exclude,
}

abbrev pub whole : Ratio
whole = record { num = 1; den = 1 }

abbrev pub shrink_of : Option Ratio → Ratio
shrink_of none = whole
shrink_of (some r) = r

-- `n or default`: 0 counts as missing.
abbrev pub number_or : Option ℕ → ℕ → ℕ
number_or none default = default
number_or (some zero) default = default
number_or (some (suc n)) default = suc n

unfoldable pub target_context : Endpoint → Ratio → ℕ
target_context ep r = ep.profile.context_window * r.num / r.den

unfoldable pub safety_margin : ℕ → ℕ
safety_margin window = if ltb 8000 window then 2048 else min 512 (window / 10)

-- `desired_output`: less of it where the prompt needs the room, but at least 1024.
unfoldable pub desired_output : ℕ → ℕ → ℕ → ℕ → ℕ
desired_output window margin tokens output =
    if ltb window (tokens + margin + output) && ltb 1024 output
    then max 1024 (min output (window - margin - tokens))
    else output

unfoldable pub context_budget : Endpoint → ℕ → Option ℕ → Ratio → ContextBudget
unfolding target_context safety_margin desired_output
context_budget ep tokens max_output_tokens r =
    let window = target_context ep r in
    let supported = number_or (some ep.profile.max_output_tokens) 4096 in
    record {
      model_context_window = window;
      desired_output_tokens =
          desired_output window (safety_margin window) tokens
            (min (number_or max_output_tokens supported) supported);
      safety_margin_tokens = safety_margin window;
    }

abbrev pub is_part : Ratio → Bool
is_part r = ltb r.num r.den

-- A request that cannot be made to fit excludes the endpoint.
abbrev pub fitted : Endpoint → Bool → Progress → Option Bool → Flow Progress
fitted ep shrunk s none = continues (exclude ep.id s)
fitted ep shrunk s (some was_compacted) =
    if shrunk && not was_compacted then continues (exclude ep.id s) else goes_on s

unfoldable pub adapt : ℕ → Turn → Endpoint → Progress → Flow Progress
unfolding context_budget
adapt tokens turn ep s =
    let r = shrink_of (Dict.lookup ep.id s.window_shrink) in
    fitted ep (is_part r) s (turn.compacts (context_budget ep tokens s.max_output_tokens r))

abbrev pub planned : String → Bool → Progress → Progress
planned target hop s = if hop then s else record s { ledger = Attempts.mark_fallback s.ledger }

-- A change of endpoint is a hop of the ledger, unless it was counted before, and has a plan.
abbrev pub switched : String → Progress → Option String → Progress
switched target s none = s
switched target s (some source) =
    if source == target
    then s
    else emit (plans_failover source target)
        (record (planned target s.fallback_marked s) { fallback_marked = false })

unfoldable pub plan_failover : Endpoint → Progress → Progress
plan_failover ep s = record (switched ep.id s s.last_endpoint) { last_endpoint = some ep.id }
