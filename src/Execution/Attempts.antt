-- ===== src/Execution/Attempts.antt =====
-- durallm/execution/ledger.py, `AttemptLedger`: the attempts of one request and the tests before
-- each. The limits come from durallm/execution/policy.py. The list of attempts holds their endpoints,
-- the newest first; costs and failover plans are not modelled.
use mathlib.Core.Path.{subst}
use durallm.Common.{
  ℕ, ◌+◌, ◌*◌, ◌≤◌, ◌≡◌, refl, Bool, true, false, not, ◌&&◌, Option, none, some, String, List, [],
  ◌∷◌, leb, if◌then◌else◌, ◌==◌, string_eq, arith, any, keep, length, if_split,
}
use durallm.Common.Dict
use durallm.Common.Dict.{Dict}

pub record Limits : Type 0 where
  pub max_total_attempts : ℕ
  pub max_attempts_same_endpoint : ℕ
  pub max_fallback_hops : ℕ

pub record AttemptLedger : Type 0 where
  pub policy : Limits
  pub total_attempts : ℕ
  pub endpoints_attempted : List String
  pub endpoint_counts : Dict String ℕ
  pub fallback_count : ℕ

abbrev pub new_attempt_ledger : Limits → AttemptLedger
new_attempt_ledger policy = record {
  policy = policy;
  total_attempts = 0;
  endpoints_attempted = [];
  endpoint_counts = [];
  fallback_count = 0;
}

abbrev pub count_or_zero : Option ℕ → ℕ
count_or_zero none = 0
count_or_zero (some n) = n

unfoldable pub attempts_on : String → AttemptLedger → ℕ
attempts_on endpoint_id l = count_or_zero (Dict.lookup endpoint_id l.endpoint_counts)

unfoldable pub record_attempt : String → AttemptLedger → AttemptLedger
unfolding attempts_on
record_attempt ep l = record l {
  total_attempts = l.total_attempts + 1;
  endpoints_attempted = ep ∷ l.endpoints_attempted;
  endpoint_counts = Dict.insert ep (attempts_on ep l + 1) l.endpoint_counts;
}

unfoldable pub can_attempt_endpoint : String → AttemptLedger → Bool
unfolding attempts_on
can_attempt_endpoint endpoint_id l =
    not (leb l.policy.max_total_attempts l.total_attempts)
    && not (leb l.policy.max_attempts_same_endpoint (attempts_on endpoint_id l))

pub data LedgerError : Type 0 where
  retry_budget_exhausted fallback_budget_exhausted : LedgerError
  cycle_detected : String → LedgerError

-- The cycle test, on the endpoints attempted, the newest first.
unfoldable pub returns_to : String → List String → Bool
returns_to endpoint_id [] = false
returns_to endpoint_id (prev ∷ before) =
    not (endpoint_id == prev) && any (λ e. endpoint_id == e) before

-- `none` where `validate_next_candidate` returns, and else what it raises.
unfoldable pub validate_next_candidate : String → AttemptLedger → Option LedgerError
unfolding returns_to
validate_next_candidate endpoint_id l =
    if leb l.policy.max_total_attempts l.total_attempts
    then some retry_budget_exhausted
    else if leb l.policy.max_fallback_hops l.fallback_count
    then some fallback_budget_exhausted
    else if returns_to endpoint_id l.endpoints_attempted
    then some (cycle_detected endpoint_id)
    else none

unfoldable pub mark_fallback : AttemptLedger → AttemptLedger
mark_fallback l = record l { fallback_count = l.fallback_count + 1 }

zero_counts : List String → Dict String ℕ → Dict String ℕ
zero_counts [] counts = counts
zero_counts (ep ∷ eps) counts = zero_counts eps (Dict.insert ep 0 counts)

unfoldable pub reset_for_rate_limit_retry : List String → AttemptLedger → AttemptLedger
unfolding zero_counts
reset_for_rate_limit_retry endpoint_ids l = record l {
  policy = record l.policy {
    max_total_attempts =
        if leb l.policy.max_total_attempts l.total_attempts
        then l.total_attempts + length endpoint_ids * 2
        else l.policy.max_total_attempts;
  };
  endpoint_counts = zero_counts endpoint_ids l.endpoint_counts;
  endpoints_attempted = keep (λ ep. not (any (λ e. ep == e) endpoint_ids)) l.endpoints_attempted;
  fallback_count = 0;
}

-- Attempts on endpoints in turn, each made only if `can_attempt_endpoint` allows it.
unfoldable pub attempt_all : AttemptLedger → List String → AttemptLedger
attempt_all l [] = l
attempt_all l (ep ∷ eps) =
    attempt_all (if can_attempt_endpoint ep l then record_attempt ep l else l) eps

-- The ledger is within its limits, in total and on this endpoint.
pub record IsWithin (limits : Limits) (ep : String) (l : AttemptLedger) : Type 0 where
  pub same_policy : l.policy ≡ limits
  pub total : l.total_attempts ≤ limits.max_total_attempts
  pub on_endpoint : attempts_on ep l ≤ limits.max_attempts_same_endpoint

attempts_on-record_attempt :
    (at ep : String) (l : AttemptLedger)
    → attempts_on at (record_attempt ep l)
      ≡ (if ep == at then attempts_on ep l + 1 else attempts_on at l)
unfolding attempts_on record_attempt
attempts_on-record_attempt at ep l = rw Dict.lookup-insert (ground arith)

record_attempt-IsWithin :
    (limits : Limits) (at ep : String) (l : AttemptLedger)
    → IsWithin limits at l
    → can_attempt_endpoint ep l ≡ true
    → IsWithin limits at (record_attempt ep l)
unfolding can_attempt_endpoint record_attempt
record_attempt-IsWithin limits at ep l w can =
    let room : attempts_on ep l + 1 ≤ limits.max_attempts_same_endpoint =
      subst (λ x. attempts_on ep l + 1 ≤ x.max_attempts_same_endpoint) w.same_policy
        (ground arith) in
    record {
      same_policy = w.same_policy;
      total = subst (λ x. l.total_attempts + 1 ≤ x.max_total_attempts) w.same_policy (ground arith);
      on_endpoint = rw attempts_on-record_attempt (
          if_split (λ n. n ≤ limits.max_attempts_same_endpoint) (ep == at) (λ same. room)
            (λ other. w.on_endpoint));
    }

keep_attempting-IsWithin :
    (limits : Limits) (at : String) (l : AttemptLedger) (eps : List String)
    → IsWithin limits at l
    → IsWithin limits at (attempt_all l eps)
unfolding attempt_all
keep_attempting-IsWithin limits at l [] w = w
keep_attempting-IsWithin limits at l (ep ∷ eps) w =
    keep_attempting-IsWithin limits at
      (if can_attempt_endpoint ep l then record_attempt ep l else l) eps
      (if_split (IsWithin limits at) (can_attempt_endpoint ep l)
        (record_attempt-IsWithin limits at ep l w) (λ refused. w))

-- Whatever endpoints a request tries, in any order and as often as it likes, if it asks
-- `can_attempt_endpoint` first then neither the total of its attempts nor those on any one endpoint
-- exceed the limits of its policy.
pub attempt_all-IsWithin :
    (limits : Limits) (at : String) (eps : List String)
    → IsWithin limits at (attempt_all (new_attempt_ledger limits) eps)
unfolding attempts_on Dict.lookup
attempt_all-IsWithin limits at eps =
    keep_attempting-IsWithin limits at (new_attempt_ledger limits) eps
      (record { same_policy = refl; total = omega arith; on_endpoint = omega arith })
