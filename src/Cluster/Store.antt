-- ===== src/Cluster/Store.antt =====
-- The state and the methods of `ClusterPersistenceStore`. `now` is the answer of `time.time()`.
-- The class has no lock; a method is taken as one step.
use Prim.Native.String.{◌++◌ as text_append}
use durallm.Common.{
  ℕ, ◌+◌, ◌-◌, ◌*◌, min, Bool, true, false, not, ◌&&◌, Option, none, some, String, List, [], ◌∷◌,
  ◌++◌, ltb, leb, if◌then◌else◌, ◌==◌, string_eq, nat_eq,
}
use durallm.Common.Dict
use durallm.Common.Dict.{Dict}

pub record StoredSession (Payload : Type 0) : Type 0 where
  pub session_id : String
  pub protocol_version : String
  pub payload : Payload
  pub revision : ℕ
  pub created_at : ℕ
  pub updated_at : ℕ

pub record StoredAttempt (Payload : Type 0) : Type 0 where
  pub attempt_id : String
  pub request_id : String
  pub status : String
  pub payload : Payload
  pub created_at : ℕ
  pub updated_at : ℕ

pub record ClusterOperation (Payload : Type 0) : Type 0 where
  pub operation_key : String
  pub logical_operation_id : String
  pub tool_name : String
  pub arguments_hash : String
  pub arguments : Payload
  pub status : String
  pub execution_receipt : Option Payload
  pub error_message : Option String
  pub created_at : ℕ
  pub updated_at : ℕ

pub record ClusterLease : Type 0 where
  pub resource : String
  pub owner_id : String
  pub fencing_token : ℕ
  pub expires_at : ℕ

pub record BreakerRecord : Type 0 where
  pub provider : String
  pub state : String
  pub error_count : ℕ
  pub trip_timestamp : ℕ
  pub updated_at : ℕ

pub record TokenBucket : Type 0 where
  pub tokens : ℕ
  pub last_refill : ℕ

-- Payloads, arguments and receipts are dictionaries of JSON.
pub record ClusterStore (Payload : Type 0) : Type 0 where
  pub sessions : Dict String (StoredSession Payload)
  pub attempts : Dict String (StoredAttempt Payload)
  pub request_attempts : Dict String (List String)
  pub operations : Dict String (ClusterOperation Payload)
  pub key_to_op : Dict String String
  pub leases : Dict String ClusterLease
  pub fencing_counters : Dict String ℕ
  pub breaker_states : Dict String BreakerRecord
  pub token_buckets : Dict String TokenBucket

abbrev pub count_or_zero : Option ℕ → ℕ
count_or_zero none = 0
count_or_zero (some n) = n

abbrev pub list_or_empty : Option (List String) → List String
list_or_empty none = []
list_or_empty (some l) = l

-- `f"{logical_operation_id}:{tool_name}:{arguments_hash}"`
abbrev pub cluster_key : String → String → String → String
cluster_key logical_operation_id tool_name arguments_hash =
    text_append logical_operation_id
      (text_append ":" (text_append tool_name (text_append ":" arguments_hash)))

-- A lease that has not expired excludes other owners.
abbrev pub is_held : Option ClusterLease → String → ℕ → Bool
is_held none owner now = false
is_held (some current) owner now = ltb now current.expires_at && not (current.owner_id == owner)

module _ {Payload : Type 0} where
  abbrev pub load_session : String → ClusterStore Payload → Option (StoredSession Payload)
  load_session id s = Dict.lookup id s.sessions

  unfoldable pub create_session :
      String
      → String
      → Payload
      → ℕ
      → ClusterStore Payload
      → Option (StoredSession Payload) × ClusterStore Payload
  create_session id version payload now s =
      let session : StoredSession Payload = record {
        session_id = id;
        protocol_version = version;
        payload = payload;
        revision = 1;
        created_at = now;
        updated_at = now;
      } in
      elim (Dict.lookup id s.sessions) [
        | some there ↦ (none, s)
        | none ↦ (some session, record s { sessions = Dict.insert id session s.sessions })
      ]

  unfoldable pub save_session :
      String
      → String
      → Payload
      → ℕ
      → ℕ
      → ClusterStore Payload
      → Option (StoredSession Payload) × ClusterStore Payload
  save_session id version payload expected now s = elim (load_session id s) [
    | none ↦ (none, s)
    | some existing ↦
        let updated : StoredSession Payload = record {
          session_id = id;
          protocol_version = version;
          payload = payload;
          revision = expected + 1;
          created_at = existing.created_at;
          updated_at = now;
        } in
        if existing.revision == expected
        then (some updated, record s { sessions = Dict.insert id updated s.sessions })
        else (none, s)
  ]

  unfoldable pub prepare_attempt :
      String → String → Payload → ℕ → ClusterStore Payload → ClusterStore Payload
  prepare_attempt id request_id payload now s = record s {
    attempts =
        Dict.insert id
          (record {
            attempt_id = id;
            request_id = request_id;
            status = "PREPARED";
            payload = payload;
            created_at = now;
            updated_at = now;
          })
          s.attempts;
    request_attempts =
        Dict.insert request_id
          (list_or_empty (Dict.lookup request_id s.request_attempts) ++ id ∷ []) s.request_attempts;
  }

  abbrev pub created : ℕ → Option (StoredAttempt Payload) → ℕ
  created now none = now
  created now (some a) = a.created_at

  abbrev pub request_of : Option (StoredAttempt Payload) → String
  request_of none = ""
  request_of (some a) = a.request_id

  unfoldable pub finish_attempt :
      String → String → Payload → ℕ → ClusterStore Payload → ClusterStore Payload
  finish_attempt id status payload now s =
      let existing = Dict.lookup id s.attempts in
      record s {
        attempts =
            Dict.insert id
              (record {
                attempt_id = id;
                request_id = request_of existing;
                status = status;
                payload = payload;
                created_at = created now existing;
                updated_at = now;
              })
              s.attempts;
      }

  unfoldable pub found_attempts :
      Dict String (StoredAttempt Payload) → List String → List (StoredAttempt Payload)
  found_attempts attempts [] = []
  found_attempts attempts (id ∷ ids) = elim (Dict.lookup id attempts) [
    | none ↦ found_attempts attempts ids
    | some a ↦ a ∷ found_attempts attempts ids
  ]

  unfoldable pub attempts_for_request : String → ClusterStore Payload → List (StoredAttempt Payload)
  unfolding found_attempts
  attempts_for_request request_id s =
      found_attempts s.attempts (list_or_empty (Dict.lookup request_id s.request_attempts))

  -- The operation is written anew, whatever the call had before.
  unfoldable pub prepare_call :
      String → String → String → String → Payload → ℕ → ClusterStore Payload → ClusterStore Payload
  prepare_call call logical_operation_id tool_name arguments_hash arguments now s =
      let key = cluster_key logical_operation_id tool_name arguments_hash in
      record s {
        operations =
            Dict.insert call
              (record {
                operation_key = key;
                logical_operation_id = logical_operation_id;
                tool_name = tool_name;
                arguments_hash = arguments_hash;
                arguments = arguments;
                status = "PREPARED";
                execution_receipt = none;
                error_message = none;
                created_at = now;
                updated_at = now;
              })
              s.operations;
        key_to_op = Dict.insert key call s.key_to_op;
      }

  unfoldable pub operation_for_key :
      String → String → String → ClusterStore Payload → Option (ClusterOperation Payload)
  operation_for_key logical_operation_id tool_name arguments_hash s =
      elim (Dict.lookup (cluster_key logical_operation_id tool_name arguments_hash) s.key_to_op) [
        | none ↦ none
        | some call ↦ if call == "" then none else Dict.lookup call s.operations
      ]

  unfoldable pub commit_receipt :
      String
      → Payload
      → ℕ
      → ClusterStore Payload
      → Option (ClusterOperation Payload) × ClusterStore Payload
  commit_receipt call receipt now s = elim (Dict.lookup call s.operations) [
    | none ↦ (none, s)
    | some op ↦
        let done : ClusterOperation Payload = record op {
          status = "COMMITTED";
          execution_receipt = some receipt;
          error_message = none;
          updated_at = now;
        } in
        (some done, record s { operations = Dict.insert call done s.operations })
  ]

  unfoldable pub acquire_lease :
      String → String → ℕ → ℕ → ClusterStore Payload → Option ClusterLease × ClusterStore Payload
  acquire_lease resource owner ttl now s =
      let fencing = count_or_zero (Dict.lookup resource s.fencing_counters) + 1 in
      let lease : ClusterLease = record {
        resource = resource;
        owner_id = owner;
        fencing_token = fencing;
        expires_at = now + ttl;
      } in
      if is_held (Dict.lookup resource s.leases) owner now then (none, s) else (
        some lease,
        record s {
          fencing_counters = Dict.insert resource fencing s.fencing_counters;
          leases = Dict.insert resource lease s.leases;
        },
      )

  unfoldable pub release_lease :
      String → String → ℕ → ClusterStore Payload → Bool × ClusterStore Payload
  release_lease resource owner token s = elim (Dict.lookup resource s.leases) [
    | none ↦ (true, s)
    | some current ↦
        if current.owner_id == owner && current.fencing_token == token
        then (true, record s { leases = Dict.remove resource s.leases })
        else (false, s)
  ]

  unfoldable pub sync_breaker_state :
      String → String → ℕ → ℕ → ℕ → ClusterStore Payload → ClusterStore Payload
  sync_breaker_state provider state error_count trip_timestamp now s = record s {
    breaker_states =
        Dict.insert provider
          (record {
            provider = provider;
            state = state;
            error_count = error_count;
            trip_timestamp = trip_timestamp;
            updated_at = now;
          })
          s.breaker_states;
  }

  abbrev pub get_cluster_breaker_state : String → ClusterStore Payload → Option BreakerRecord
  get_cluster_breaker_state provider s = Dict.lookup provider s.breaker_states

-- The tokens of a bucket at a time. They are counted in units so small that the rate is a whole
-- number of them for a millisecond; a clock that goes back adds none.
abbrev pub refilled : ℕ → ℕ → Option TokenBucket → ℕ → TokenBucket
refilled capacity rate none now = record { tokens = capacity; last_refill = now }
refilled capacity rate (some bucket) now = record {
  tokens = min capacity (bucket.tokens + (now - bucket.last_refill) * rate);
  last_refill = now;
}

unfoldable pub consume : ℕ → ℕ → ℕ → ℕ → Option TokenBucket → Option TokenBucket
consume tokens capacity rate now bucket =
    let current = refilled capacity rate bucket now in
    if leb tokens current.tokens
    then some (record current { tokens = current.tokens - tokens })
    else none

abbrev pub store_bucket :
    {Payload : Type 0}
    → String
    → ClusterStore Payload
    → Option TokenBucket
    → Bool × ClusterStore Payload
store_bucket key s none = (false, s)
store_bucket key s (some bucket) =
    (true, record s { token_buckets = Dict.insert key bucket s.token_buckets })

unfoldable pub consume_tokens :
    {Payload : Type 0} → String → ℕ → ℕ → ℕ → ℕ → ClusterStore Payload → Bool × ClusterStore Payload
unfolding consume
consume_tokens key tokens capacity rate now s =
    store_bucket key s (consume tokens capacity rate now (Dict.lookup key s.token_buckets))
