-- ===== src/Continuation/Store.antt =====
-- `InMemoryContinuationStore` of durallm/continuation/store.py. No method has changed the store when
-- it raises. `Fresh` holds what `uuid4` and the clock return, and the digest of a checkpoint is a
-- parameter.
use Prim.Native.String.{◌++◌}
use durallm.Common.{
  ℕ, ◌+◌, Bool, true, false, not, ◌&&◌, ◌||◌, Option, none, some, String, [], ◌∷◌, nat_beq, ◌==◌,
  string_eq, if◌then◌else◌,
}
use mathlib.Core.List
use durallm.Common.Dict
use durallm.Common.Dict.{Dict}
use durallm.Common.Fallible.{Fallible, returns, raises, ◌>>=◌, ◌>>◌, ensure}
use durallm.Continuation.Model.{
  ContinuationRequest, Checkpoint, EventType, turn_started, turn_completed, checkpoint_acknowledged,
  turn_interrupted, ContinuationEvent, ContinuationTurn, CheckpointData, Session, ContinuationError,
  unsupported_version, invalid_identifier, invalid_digest, parent_of_new_session, version_mismatch,
  turn_already_active, must_acknowledge, stale_parent, turn_not_active, no_checkpoint,
  acknowledgement_mismatch, already_acknowledged, acp_version, is_digest, is_identifier, is_given,
  first_chars, same_option,
}

pub record Fresh : Type 0 where
  pub session_hex : String
  pub turn_hex : String
  pub event_hex : String
  pub now : ℕ
  pub event_now : ℕ

abbrev pub Store : Type 0
Store = Dict String Session

abbrev pub Answer : Type 0 → Type 0
Answer A = Fallible ContinuationError A

-- `_event`
abbrev pub event_of :
    EventType
    → ContinuationTurn
    → Option Checkpoint
    → Bool
    → Option String
    → Fresh
    → ContinuationEvent
event_of event_type turn checkpoint ack_required detail x = record {
  event_id = "acp_evt_" ++ x.event_hex;
  event_type = event_type;
  session_id = turn.session_id;
  turn_id = turn.turn_id;
  epoch = turn.epoch;
  protocol_version = turn.protocol_version;
  checkpoint = checkpoint;
  ack_required = ack_required;
  detail = detail;
  created_at = x.event_now;
}

abbrev add_event : ContinuationEvent → Session → Session
add_event event s = record s { events = List.◌++◌ s.events (event ∷ []) }

abbrev pub valid_or_absent : (String → Bool) → Option String → Bool
valid_or_absent test none = true
valid_or_absent test (some value) = value == "" || test value

-- `_validate_request`
unfoldable pub validate_request : ContinuationRequest → Answer (Unit {0})
unfolding is_digest is_identifier
validate_request request = do
  ensure (request.protocol_version == acp_version) unsupported_version
  ensure (valid_or_absent is_identifier request.session_id) invalid_identifier
  ensure (is_digest request.state_digest) invalid_digest
  ensure (valid_or_absent is_digest request.parent_checkpoint_digest) invalid_digest

-- `request.session_id or new_session_id()`
abbrev pub session_id_of : Option String → Fresh → String
session_id_of none x = "acp_sess_" ++ x.session_hex
session_id_of (some id) x = if id == "" then "acp_sess_" ++ x.session_hex else id

abbrev pub new_session : String → String → Session
new_session id version = record {
  session_id = id;
  protocol_version = version;
  next_epoch = 0;
  active_turn_id = none;
  active_epoch = none;
  latest_checkpoint = none;
  latest_checkpoint_acknowledged = true;
  events = [];
}

-- The session that is there, or a new one.
unfoldable pub session_for : ContinuationRequest → String → Option Session → Answer Session
session_for request id none = do
  ensure (not (is_given request.parent_checkpoint_digest)) parent_of_new_session
  returns (new_session id request.protocol_version)
session_for request id (some s) = do
  ensure (s.protocol_version == request.protocol_version) version_mismatch
  returns s

abbrev pub is_idle : Option String → Bool
is_idle none = true
is_idle (some id) = id == ""

-- The tests against the latest checkpoint.
unfoldable pub check_parent : ContinuationRequest → Session → Option Checkpoint → Answer (Unit {0})
check_parent request s none = returns tt
check_parent request s (some latest) = do
  ensure s.latest_checkpoint_acknowledged must_acknowledge
  ensure (same_option request.parent_checkpoint_digest (some latest.gateway_digest)) stale_parent

abbrev pub digest_of : Option Checkpoint → Option String
digest_of none = none
digest_of (some c) = some c.gateway_digest

-- `begin_turn`, on the session of the request
unfoldable pub begin_session :
    ContinuationRequest → String → Fresh → Option Session → Answer (Session × ContinuationTurn)
unfolding session_for check_parent
begin_session request id x o = do
  s ← session_for request id o
  ensure (is_idle s.active_turn_id) turn_already_active
  check_parent request s s.latest_checkpoint
  let turn : ContinuationTurn = record {
    session_id = id;
    turn_id = "acp_turn_" ++ x.turn_hex;
    epoch = s.next_epoch;
    parent_checkpoint_digest = digest_of s.latest_checkpoint;
    client_state_digest = request.state_digest;
    protocol_version = request.protocol_version;
  }
  returns (
    add_event (event_of turn_started turn none false none x)
        (record s { active_turn_id = some turn.turn_id; active_epoch = some turn.epoch }),
    turn,
  )

abbrev pub is_active : ContinuationTurn → Option String → Option ℕ → Bool
is_active turn (some id) (some epoch) = id == turn.turn_id && nat_beq epoch turn.epoch
is_active turn _ _ = false

-- `_active_session`
unfoldable pub active_session : ContinuationTurn → Option Session → Answer Session
active_session turn none = raises turn_not_active
active_session turn (some s) = do
  ensure (is_active turn s.active_turn_id s.active_epoch) turn_not_active
  returns s

unfoldable pub interrupt_session :
    ContinuationTurn → String → Fresh → Option Session → Answer (Session × ContinuationEvent)
unfolding active_session
interrupt_session turn detail x o = do
  s ← active_session turn o
  let event = event_of turn_interrupted turn none false (some detail) x
  returns (add_event event (record s { active_turn_id = none; active_epoch = none }), event)

-- The acknowledgement names the latest checkpoint.
abbrev pub names : String → ℕ → String → Checkpoint → Bool
names turn_id epoch digest c =
    c.turn_id == turn_id && nat_beq c.epoch epoch && c.gateway_digest == digest

unfoldable pub acknowledge_checkpoint :
    String
    → String
    → ℕ
    → String
    → Fresh
    → Session
    → Option Checkpoint
    → Answer (Session × ContinuationEvent)
acknowledge_checkpoint id turn_id epoch digest x s none = raises no_checkpoint
acknowledge_checkpoint id turn_id epoch digest x s (some checkpoint) = do
  ensure (names turn_id epoch digest checkpoint) acknowledgement_mismatch
  ensure (not s.latest_checkpoint_acknowledged) already_acknowledged
  let turn : ContinuationTurn = record {
    session_id = id;
    turn_id = turn_id;
    epoch = epoch;
    parent_checkpoint_digest = checkpoint.parent_checkpoint_digest;
    client_state_digest = checkpoint.client_state_digest;
    protocol_version = s.protocol_version;
  }
  let event = event_of checkpoint_acknowledged turn (some checkpoint) false none x
  returns (add_event event (record s { latest_checkpoint_acknowledged = true }), event)

unfoldable pub acknowledge_session :
    String → String → ℕ → String → Fresh → Option Session → Answer (Session × ContinuationEvent)
unfolding acknowledge_checkpoint
acknowledge_session id turn_id epoch digest x none = raises no_checkpoint
acknowledge_session id turn_id epoch digest x (some s) =
    acknowledge_checkpoint id turn_id epoch digest x s s.latest_checkpoint

-- A method on the session of this id, which it writes back.
unfoldable pub on_session :
    {A : Type 0} → String → (Option Session → Answer (Session × A)) → Store → Answer (A × Store)
on_session id method store = do
  (s, a) ← method (Dict.lookup id store)
  returns (a, Dict.insert id s store)

unfoldable pub begin_turn : ContinuationRequest → Fresh → Store → Answer (ContinuationTurn × Store)
unfolding begin_session on_session validate_request
begin_turn request x store = do
  validate_request request
  let id = session_id_of request.session_id x
  on_session id (begin_session request id x) store

unfoldable pub interrupt_turn :
    ContinuationTurn → String → Fresh → Store → Answer (ContinuationEvent × Store)
unfolding interrupt_session on_session
interrupt_turn turn detail x store =
    on_session turn.session_id (interrupt_session turn detail x) store

unfoldable pub acknowledge :
    String → String → ℕ → String → Fresh → Store → Answer (ContinuationEvent × Store)
unfolding acknowledge_session on_session is_identifier is_digest
acknowledge id turn_id epoch digest x store = do
  ensure (is_identifier id) invalid_identifier
  ensure (is_identifier turn_id) invalid_identifier
  ensure (is_digest digest) invalid_digest
  on_session id (acknowledge_session id turn_id epoch digest x) store

module _ (canonical_digest : CheckpointData → String) where
  unfoldable pub checkpoint_of : ContinuationTurn → String → String → String → Fresh → Checkpoint
  checkpoint_of turn request_digest response_digest endpoint x =
      let gateway_digest = canonical_digest (record {
        turn = turn;
        request_digest = request_digest;
        response_digest = response_digest;
        selected_endpoint = endpoint;
      }) in
      record {
        checkpoint_id = "acp_ckpt_" ++ first_chars 24 gateway_digest;
        session_id = turn.session_id;
        turn_id = turn.turn_id;
        epoch = turn.epoch;
        parent_checkpoint_digest = turn.parent_checkpoint_digest;
        request_digest = request_digest;
        client_state_digest = turn.client_state_digest;
        response_digest = response_digest;
        gateway_digest = gateway_digest;
        created_at = x.now;
      }

  unfoldable pub complete_session :
      ContinuationTurn
      → String
      → String
      → String
      → Fresh
      → Option Session
      → Answer (Session × ContinuationEvent)
  unfolding active_session
  complete_session turn request_digest response_digest endpoint x o = do
    s ← active_session turn o
    let checkpoint = checkpoint_of turn request_digest response_digest endpoint x
    let event = event_of turn_completed turn (some checkpoint) true none x
    returns (
      add_event event (record s {
        active_turn_id = none;
        active_epoch = none;
        next_epoch = turn.epoch + 1;
        latest_checkpoint = some checkpoint;
        latest_checkpoint_acknowledged = false;
      }),
      event,
    )

  unfoldable pub complete_turn :
      ContinuationTurn
      → String
      → String
      → String
      → Fresh
      → Store
      → Answer (ContinuationEvent × Store)
  unfolding complete_session on_session
  complete_turn turn request_digest response_digest endpoint x store =
      on_session turn.session_id (complete_session turn request_digest response_digest endpoint x)
        store
