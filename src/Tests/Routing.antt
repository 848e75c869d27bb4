-- ===== src/Tests/Routing.antt =====
-- A budget of ten, one lane, two keys and three attempts.
use durallm.Common.{
  ◌+◌, ◌≤◌, ◌≡◌, refl, max, ℕ, false, none, some, String, List, [], ◌∷◌, arith, string_eq,
}
use durallm.Common.Dict
use durallm.Common.Dict.{Dict}
use durallm.Routing.Budget.{
  BudgetReservationStore, BudgetOp, take, pay, run, committed_to, run-le-limit, spent_of,
  reserved_of, step, reserve, settle, largest_limit, overspend,
}
use durallm.Routing.Lanes
use durallm.Routing.Lanes.{
  ResourceLaneStatus, PromptCacheTracker, LaneCall, closes, asks, free, status, meant, last_word,
  status-eq-meant,
}
use durallm.Routing.Keys.{KeyRotationPool, Chosen, cooled, get_active_key, get_active_key-Chosen}
use durallm.Execution.Attempts.{
  Limits, IsWithin, attempt_all, new_attempt_ledger, attempt_all-IsWithin,
}

abbrev empty : BudgetReservationStore
empty = record { reserved = []; spent = [] }

-- The second reservation is refused, and the first payment costs one more than it reserved.
abbrev requests : List BudgetOp
requests = take "r1" "team" 6 10 ∷ take "r2" "team" 5 10 ∷ pay "r1" 7 ∷ take "r3" "other" 50 60 ∷ []

run-le-limit_example :
    committed_to "team" (run empty requests)
    ≤ max (committed_to "team" empty) (largest_limit "team" requests)
      + overspend "team" empty requests
run-le-limit_example = run-le-limit "team" empty requests

team_lem : (committed_to "team" (run empty requests) ≡ 7) × (overspend "team" empty requests ≡ 1)
unfolding run spent_of reserved_of step reserve settle Dict.lookup Dict.insert Dict.remove
team_lem = (refl, refl)

-- The lane is blocked, asked for in vain and after its time, and blocked again.
abbrev lane_calls : List (ℕ × LaneCall)
lane_calls =
    (100, closes "groq" "quota" (some 500))
    ∷ (300, asks "groq")
    ∷ (650, asks "groq")
    ∷ (700, closes "groq" "rate" (some 50))
    ∷ (710, closes "other" "dead" none)
    ∷ []

status-eq-meant_example :
    (status "groq" 720 (Lanes.run lane_calls [])).0 ≡ meant (last_word "groq" lane_calls free) 720
status-eq-meant_example =
    status-eq-meant "groq" 720 lane_calls
      (omega arith, (omega arith, (omega arith, (omega arith, (omega arith, omega arith)))))

lane_lem :
    meant (last_word "groq" lane_calls free) 720
    ≡ record { available = false; reason = some "rate"; expires_at = some 750 }
lane_lem = refl

abbrev tracker : PromptCacheTracker
tracker = record { ttl = 300; warm_entries = [] }

abbrev pool : KeyRotationPool
pool = record { key_cooldowns = ("K:0", 500) ∷ []; rr_indices = ("groq", 1) ∷ [] }

abbrev keys : List (String × String)
keys = ("a", "K:0") ∷ ("b", "K:1") ∷ []

get_active_key-Chosen_example :
    Chosen (cooled pool 100) keys (get_active_key "groq" keys 100 pool).0
get_active_key-Chosen_example = get_active_key-Chosen "groq" keys 100 pool

abbrev limits : Limits
limits = record { max_total_attempts = 3; max_attempts_same_endpoint = 2; max_fallback_hops = 8 }

abbrev tried : List String
tried = "x" ∷ "x" ∷ "x" ∷ "y" ∷ "z" ∷ []

attempt_all-IsWithin_example : IsWithin limits "x" (attempt_all (new_attempt_ledger limits) tried)
attempt_all-IsWithin_example = attempt_all-IsWithin limits "x" tried
