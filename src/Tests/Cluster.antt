-- ===== src/Tests/Cluster.antt =====
-- A lease that changes hands, and a bucket of ten tokens.
use durallm.Common.{
  ℕ, ◌+◌, ◌-◌, ◌*◌, ◌≤◌, ◌<◌, ◌≡◌, refl, some, none, Option, String, List, [], ◌∷◌, arith,
}
use durallm.Cluster.Store.{ClusterStore, ClusterLease, acquire_lease, release_lease, consume_tokens}
use durallm.Cluster.Leasing.{
  ClusterCall, takes, releases, prepares, run, acquire_lease-fences_later,
}
use durallm.Cluster.Bucket.{TokenRequest, granted, granted-le-refill}

abbrev store : ClusterStore String
store = record {
  sessions = [];
  attempts = [];
  request_attempts = [];
  operations = [];
  key_to_op = [];
  leases = [];
  fencing_counters = [];
  breaker_states = [];
  token_buckets = [];
}

abbrev between : List (ClusterCall String)
between =
    releases "tool" "pod1" 1 ∷ prepares "c1" "op" "write" "h" "{}" 5 ∷ takes "tool" "pod2" 10 6 ∷ []

abbrev lease : String → ℕ → ℕ → ClusterLease
lease owner token expires = record {
  resource = "tool";
  owner_id = owner;
  fencing_token = token;
  expires_at = expires;
}

acquire_lease-fences_later_example :
    (lease "pod1" 1 30).fencing_token < (lease "pod3" 3 60).fencing_token
unfolding acquire_lease run durallm.Common.Dict.lookup durallm.Common.Dict.insert
    durallm.Common.Dict.remove release_lease durallm.Cluster.Store.prepare_call
acquire_lease-fences_later_example =
    acquire_lease-fences_later "tool" "pod1" "pod3" 30 0 40 20 store between (lease "pod1" 1 30)
      (lease "pod3" 3 60) refl refl

abbrev request : ℕ → ℕ → TokenRequest
request n t = record { key = "groq"; tokens = n; time = t }

abbrev requests : List TokenRequest
requests =
    request 8 0 ∷ request 5 1 ∷ record { key = "nvidia"; tokens = 9; time = 1 } ∷ request 5 2 ∷ []

granted-le-refill_example : granted 10 2 "groq" requests store ≤ 10 + (3 - 0) * 2
unfolding durallm.Common.Dict.lookup
granted-le-refill_example = granted-le-refill 10 2 "groq" requests store 0 3 (omega arith) refl

granted_lem : granted 10 2 "groq" requests store ≡ 13
unfolding granted consume_tokens durallm.Common.Dict.lookup durallm.Common.Dict.insert
granted_lem = refl
