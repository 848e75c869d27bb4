-- ===== src/Continuation/Orderly.antt =====
-- The sessions of a store of durallm/continuation/store.py that came of calls on a new one.
use durallm.Common.{
  ℕ, ◌≡◌, refl, ap, ◌∙◌, Bool, true, false, ◌||◌, Option, none, some, String, List, [], ◌∷◌,
  string_eq, eq_iff, arith,
}
use durallm.Common.Dict
use durallm.Common.Fallible.{returns, has_returned, ensure}
use durallm.Continuation.Model.{
  ContinuationRequest, Checkpoint, ContinuationTurn, ContinuationEvent, CheckpointData, Session,
  acp_version, invalid_identifier, invalid_digest, is_identifier, is_digest,
}
use durallm.Continuation.Store
use durallm.Continuation.Store.{
  Fresh, Answer, on_session, begin_session, session_for, check_parent, interrupt_session,
  acknowledge_session, acknowledge_checkpoint, complete_session, session_id_of, active_session,
  is_idle, valid_or_absent, validate_request,
}
use durallm.Continuation.Epochs.{ContinuationOp, begin, complete, acknowledge, interrupt, step, run}
use durallm.Continuation.Waiting.{on_session-keeps, guard-keeps}

abbrev pub is_there : Option Checkpoint → Bool
is_there none = false
is_there (some c) = true

-- A session of a store in use: it is of the one protocol version, and while a checkpoint waits for its
-- acknowledgement no turn is active.
abbrev pub IsOrderly : Option Session → Type 0
IsOrderly none = Unit
IsOrderly (some s) =
    (s.protocol_version ≡ acp_version)
    × ((s.latest_checkpoint_acknowledged || is_idle s.active_turn_id) ≡ true)
    × ((s.latest_checkpoint_acknowledged || is_there s.latest_checkpoint) ≡ true)

-- An acknowledgement that returned
acknowledge_checkpoint-inverse :
    (id turn_id : String) (epoch : ℕ) (digest : String) (x : Fresh) (old : Session)
    (o : Option Checkpoint) (s : Session) (event : ContinuationEvent)
    → old.latest_checkpoint ≡ o
    → acknowledge_checkpoint id turn_id epoch digest x old o ≡ returns (s, event)
    → (c : Checkpoint) × (old.latest_checkpoint_acknowledged ≡ false)
      × (s.latest_checkpoint ≡ some c)
      × (s.latest_checkpoint_acknowledged ≡ true)
      × (c.gateway_digest ≡ digest)
      × (s.active_turn_id ≡ old.active_turn_id)
      × (s.protocol_version ≡ old.protocol_version)
unfolding acknowledge_checkpoint
acknowledge_checkpoint-inverse id turn_id epoch digest x old none s event e h = cc
acknowledge_checkpoint-inverse id turn_id epoch digest x old (some c) s event e h =
    let iff = eq_iff c.gateway_digest digest in
    (c, ground arith, ground arith, ground arith, ground arith, ground arith, ground arith)

begin-IsOrderly :
    (request : ContinuationRequest) (id : String) (x : Fresh) (o : Option Session) (s : Session)
    (t : ContinuationTurn)
    → request.protocol_version ≡ acp_version
    → IsOrderly o
    → begin_session request id x o ≡ returns (s, t)
    → IsOrderly (some s)
unfolding begin_session session_for check_parent
begin-IsOrderly request id x none s t v h e = (ground arith, ground arith, ground arith)
begin-IsOrderly request id x (some old) s t v h e = (ground arith, ground arith, ground arith)

interrupt-IsOrderly :
    (turn : ContinuationTurn) (detail : String) (x : Fresh) (o : Option Session) (s : Session)
    (event : ContinuationEvent)
    → IsOrderly o
    → interrupt_session turn detail x o ≡ returns (s, event)
    → IsOrderly (some s)
unfolding interrupt_session active_session
interrupt-IsOrderly turn detail x none s event h e = cc
interrupt-IsOrderly turn detail x (some old) s event h e =
    (ground arith, ground arith, ground arith)

acknowledge-IsOrderly :
    (id turn_id : String) (epoch : ℕ) (digest : String) (x : Fresh) (o : Option Session)
    (s : Session) (event : ContinuationEvent)
    → IsOrderly o
    → acknowledge_session id turn_id epoch digest x o ≡ returns (s, event)
    → IsOrderly (some s)
unfolding acknowledge_session
acknowledge-IsOrderly id turn_id epoch digest x none s event h e = cc
acknowledge-IsOrderly id turn_id epoch digest x (some old) s event h e =
    let (c, waited, latest, done, named, turn, version) =
      acknowledge_checkpoint-inverse id turn_id epoch digest x old old.latest_checkpoint s event
        refl e in
    (version ∙ h.0, rw done refl, rw done refl)

validate_request-version :
    (request : ContinuationRequest)
    → has_returned (validate_request request) ≡ true
    → request.protocol_version ≡ acp_version
unfolding validate_request
validate_request-version request h =
    let iff = eq_iff request.protocol_version acp_version in ground arith

module _ (canonical_digest : CheckpointData → String) where
  complete-IsOrderly :
      (turn : ContinuationTurn) (request_digest response_digest endpoint : String) (x : Fresh)
      (o : Option Session) (s : Session) (event : ContinuationEvent)
      → IsOrderly o
      → complete_session canonical_digest turn request_digest response_digest endpoint x o
        ≡ returns (s, event)
      → IsOrderly (some s)
  unfolding complete_session active_session
  complete-IsOrderly turn request_digest response_digest endpoint x none s event h e = cc
  complete-IsOrderly turn request_digest response_digest endpoint x (some old) s event h e =
      (ground arith, ground arith, ground arith)

  step-IsOrderly :
      (key : String) (op : ContinuationOp) (store : Store.Store)
      → IsOrderly (Dict.lookup key store)
      → IsOrderly (Dict.lookup key (step canonical_digest op store))
  unfolding step Store.begin_turn Store.complete_turn Store.acknowledge Store.interrupt_turn
  step-IsOrderly key (begin request x) store h =
      let id = session_id_of request.session_id x in
      guard-keeps IsOrderly key (validate_request request) _ store h λ valid.
        on_session-keeps IsOrderly id key (begin_session request id x) store
          (λ same o s t k e.
            begin-IsOrderly request id x o s t (validate_request-version request valid) k e)
          h
  step-IsOrderly key (complete turn request_digest response_digest endpoint x) store h =
      on_session-keeps IsOrderly turn.session_id key
        (complete_session canonical_digest turn request_digest response_digest endpoint x) store
        (λ same o s event k e.
          complete-IsOrderly turn request_digest response_digest endpoint x o s event k e)
        h
  step-IsOrderly key (acknowledge id turn_id epoch digest x) store h =
      guard-keeps IsOrderly key (ensure (is_identifier id) invalid_identifier) _ store h λ a.
        guard-keeps IsOrderly key (ensure (is_identifier turn_id) invalid_identifier) _ store h λ b.
          guard-keeps IsOrderly key (ensure (is_digest digest) invalid_digest) _ store h λ d.
            on_session-keeps IsOrderly id key (acknowledge_session id turn_id epoch digest x) store
              (λ same o s event k e. acknowledge-IsOrderly id turn_id epoch digest x o s event k e)
              h
  step-IsOrderly key (interrupt turn detail x) store h =
      on_session-keeps IsOrderly turn.session_id key (interrupt_session turn detail x) store
        (λ same o s event k e. interrupt-IsOrderly turn detail x o s event k e) h

  pub run-IsOrderly :
      (key : String) (store : Store.Store) (ops : List ContinuationOp)
      → IsOrderly (Dict.lookup key store)
      → IsOrderly (Dict.lookup key (run canonical_digest store ops))
  unfolding run
  run-IsOrderly key store [] h = h
  run-IsOrderly key store (op ∷ ops) h =
      run-IsOrderly key (step canonical_digest op store) ops (step-IsOrderly key op store h)

-- What `acknowledge` leaves of a session that is orderly.
pub acknowledge_session-opens :
    (id turn_id : String) (epoch : ℕ) (digest : String) (x : Fresh) (o : Option Session)
    (s : Session) (event : ContinuationEvent)
    → IsOrderly o
    → acknowledge_session id turn_id epoch digest x o ≡ returns (s, event)
    → (c : Checkpoint) × (s.latest_checkpoint ≡ some c)
      × (s.latest_checkpoint_acknowledged ≡ true)
      × (c.gateway_digest ≡ digest)
      × (is_idle s.active_turn_id ≡ true)
      × (s.protocol_version ≡ acp_version)
unfolding acknowledge_session
acknowledge_session-opens id turn_id epoch digest x none s event h e = cc
acknowledge_session-opens id turn_id epoch digest x (some old) s event h e =
    let (c, waited, latest, done, named, turn, version) =
      acknowledge_checkpoint-inverse id turn_id epoch digest x old old.latest_checkpoint s event
        refl e in
    let idle : is_idle old.active_turn_id ≡ true = ground arith in
    (c, latest, done, named, ap is_idle turn ∙ idle, version ∙ h.0)
