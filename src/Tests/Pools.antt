-- ===== src/Tests/Pools.antt =====
-- The default routes with one key, and calls on both pools.
use durallm.Common.{
  ℕ, ◌+◌, ◌≡◌, refl, true, false, not, Option, none, some, String, List, [], ◌∷◌, keep, length,
  arith, ◌==◌, string_eq, any,
}
use durallm.Pools.Manager.{
  IsolatedPoolManager, Clock, lower, select_route, get_candidate_routes, mark_cooldown,
  mark_provider_quota_exhausted,
}
use durallm.Pools.Routes.{new_pool_manager}
use durallm.Pools.View.{restrict}
use durallm.Pools.Candidates.{Serves, select_route-Serves, get_candidate_routes-mark_cooldown}
use durallm.Pools.Others.{PoolCall, cools, exhausts, deprecates, selects, exhausts_provider, run}
use durallm.Pools.Isolation.{AreOthers, with_lockouts, lockouts_after, select_route-run}

abbrev manager : IsolatedPoolManager
manager = record new_pool_manager { keys = ("GROQ_API_KEY", "k") ∷ [] }

abbrev at : ℕ → Clock
at n = record { monotonic = n; epoch = n }

abbrev agent_calls : List (Clock × PoolCall)
agent_calls =
    (at 100, cools "general_agent" "groq-llama31-agent" 60000)
    ∷ (at 200, exhausts "general_agent" "groq-qwen36-coding" 86400000)
    ∷ (at 300, deprecates "general_agent" "qwen/qwen3.6-27b")
    ∷ (at 400, selects "general_agent")
    ∷ (at 450, exhausts_provider "general_agent" "groq" 86400000)
    ∷ []

select_route-run_example :
    let s' = with_lockouts (lockouts_after agent_calls manager) manager in
    ((select_route "coding" (at 500) (run agent_calls manager)).0
      ≡ (select_route "coding" (at 500) s').0)
    × (restrict "coding" 500 (select_route "coding" (at 500) (run agent_calls manager)).1
        ≡ restrict "coding" 500 (select_route "coding" (at 500) s').1)
unfolding lower
select_route-run_example =
    let q : AreOthers "coding" 500 agent_calls = (
      ((refl, refl), omega arith),
      (
        ((refl, refl), omega arith),
        (
          ((refl, refl), omega arith),
          (((refl, refl), omega arith), (((refl, refl), omega arith), tt)),
        ),
      ),
    ) in
    select_route-run "coding" (at 500) agent_calls manager q

select_route-Serves_example :
    Serves "coding" (at 500) manager (select_route "coding" (at 500) manager).0
select_route-Serves_example = select_route-Serves "coding" (at 500) manager

get_candidate_routes-mark_cooldown_example :
    (get_candidate_routes "coding"
      (at 500)
      (mark_cooldown "coding" "Groq-Qwen36-Coding" 60000 (at 100) manager)).0
    ≡ keep
        (λ r. not (lower r.id == lower "Groq-Qwen36-Coding"))
        (get_candidate_routes "coding" (at 500) manager).0
get_candidate_routes-mark_cooldown_example =
    get_candidate_routes-mark_cooldown "coding" "Groq-Qwen36-Coding" 60000 (at 100) (at 500) manager
      (omega arith)

-- A cooldown that is filed under the id of an endpoint, which starts with the pool, takes nothing away.
endpoint_id_lem :
    length
      (get_candidate_routes "coding"
        (at 500)
        (mark_cooldown "coding" "coding:groq-qwen36-coding" 60000 (at 100) manager)).0
    ≡ 4
unfolding get_candidate_routes mark_cooldown durallm.Common.Text.strip durallm.Common.Dict.lookup
    durallm.Common.Dict.insert lower
endpoint_id_lem = refl

-- An account-wide lockout that one pool met empties the other as well.
lockout_crosses_lem :
    length
      (get_candidate_routes "coding"
        (at 500)
        (mark_provider_quota_exhausted "general_agent" "groq" 86400000 (at 100) manager)).0
    ≡ 0
unfolding get_candidate_routes mark_provider_quota_exhausted durallm.Common.Text.strip
    durallm.Common.Dict.lookup durallm.Common.Dict.insert lower
lockout_crosses_lem = refl
