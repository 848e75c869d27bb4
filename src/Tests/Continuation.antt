-- ===== src/Tests/Continuation.antt =====
-- One session whose first turn is completed and acknowledged.
use durallm.Common.{
  ◌≤◌, ◌≡◌, refl, true, false, ◌&&◌, none, some, String, List, [], ◌∷◌, ◌==◌, string_eq,
}
use durallm.Common.Dict
use durallm.Common.Fallible.{returns, raises, has_returned}
use durallm.Continuation.Model.{
  ContinuationRequest, ContinuationTurn, ContinuationEvent, turn_completed, CheckpointData,
  acp_version, is_digest, same_option,
}
use durallm.Continuation.Store
use durallm.Continuation.Store.{Fresh, is_idle, session_id_of}
use durallm.Continuation.Epochs.{
  ContinuationOp, begin, complete, acknowledge, step, run, completions, completions-le-one,
}
use durallm.Continuation.Waiting.{begin_turn-complete_turn}
use durallm.Continuation.Opening.{begin_turn-acknowledge}

abbrev digest : String
digest = "0123456789abcdef0123456789abcdef0123456789abcdef0123456789abcdef"

abbrev canonical_digest : CheckpointData → String
canonical_digest d = digest

abbrev fresh : Fresh
fresh = record { session_hex = "1"; turn_hex = "2"; event_hex = "3"; now = 4; event_now = 5 }

abbrev request : ContinuationRequest
request = record {
  state_digest = digest;
  session_id = some "s";
  parent_checkpoint_digest = none;
  protocol_version = acp_version;
}

abbrev turn : ContinuationTurn
turn = record {
  session_id = "s";
  turn_id = "acp_turn_2";
  epoch = 0;
  parent_checkpoint_digest = none;
  client_state_digest = digest;
  protocol_version = acp_version;
}

abbrev empty : Store.Store
empty = []

abbrev calls : List ContinuationOp
calls =
    begin request fresh
    ∷ complete turn "q" "r" "groq" fresh
    ∷ complete turn "q" "r" "groq" fresh
    ∷ acknowledge "s" "acp_turn_2" 0 digest fresh
    ∷ []

calls_lem : completions canonical_digest "s" 0 empty calls ≡ 1
unfolding completions Store.complete_turn Dict.lookup step Store.begin_turn Dict.insert
calls_lem = refl

completions-le-one_example : completions canonical_digest "s" 0 empty calls ≤ 1
unfolding Dict.lookup
completions-le-one_example = completions-le-one canonical_digest "s" 0 empty calls tt

abbrev begun : Store.Store
begun = step canonical_digest (begin request fresh) empty

abbrev completed : Store.Store
completed = step canonical_digest (complete turn "q" "r" "groq" fresh) begun

abbrev acknowledged : Store.Store
acknowledged = step canonical_digest (acknowledge "s" "acp_turn_2" 0 digest fresh) completed

-- The event that a call returns
abbrev event_in : Store.Answer (ContinuationEvent × Store.Store) → ContinuationEvent
event_in (returns (event, store)) = event
event_in (raises e) = Store.event_of turn_completed turn none false none fresh

abbrev completed_event : ContinuationEvent
completed_event = event_in (Store.complete_turn canonical_digest turn "q" "r" "groq" fresh begun)

abbrev acknowledged_event : ContinuationEvent
acknowledged_event = event_in (Store.acknowledge "s" "acp_turn_2" 0 digest fresh completed)

-- Calls that do not open the session: a beginning, and an acknowledgement of another epoch.
abbrev knocks : List ContinuationOp
knocks = begin request fresh ∷ acknowledge "s" "acp_turn_2" 7 digest fresh ∷ []

begin_turn-complete_turn_example :
    has_returned (Store.begin_turn request fresh (run canonical_digest completed knocks)) ≡ false
unfolding Store.complete_turn Dict.lookup step Store.begin_turn Dict.insert Store.checkpoint_of
begin_turn-complete_turn_example =
    begin_turn-complete_turn canonical_digest turn "q" "r" "groq" fresh begun completed
      completed_event knocks refl (tt, (refl, tt)) request fresh refl

abbrev next_request : ContinuationRequest
next_request = record request { parent_checkpoint_digest = some digest }

abbrev first_turn : List ContinuationOp
first_turn = begin request fresh ∷ complete turn "q" "r" "groq" fresh ∷ []

begin_turn-acknowledge_example : has_returned (Store.begin_turn next_request fresh acknowledged) ≡ (
    next_request.protocol_version == acp_version
    && is_digest next_request.state_digest
    && same_option next_request.parent_checkpoint_digest (some digest))
unfolding Store.acknowledge Store.complete_turn Dict.lookup step run Store.begin_turn Dict.insert
    Store.checkpoint_of
begin_turn-acknowledge_example =
    begin_turn-acknowledge canonical_digest first_turn "s" "acp_turn_2" 0 digest fresh acknowledged
      acknowledged_event refl next_request fresh refl

-- The session goes on.
next_request_lem : has_returned (Store.begin_turn next_request fresh acknowledged) ≡ true
unfolding Store.acknowledge Store.complete_turn Dict.lookup step Store.begin_turn Dict.insert
    Store.checkpoint_of
next_request_lem = refl
