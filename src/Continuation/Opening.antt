-- ===== src/Continuation/Opening.antt =====
-- `begin_turn` after `acknowledge` in durallm/continuation/store.py.
use mathlib.Core.Path.{subst}
use durallm.Common.{
  ℕ, ◌≡◌, refl, sym, ap, ◌∙◌, inl, inr, Bool, true, ◌&&◌, Option, none, some, String, List, [],
  ◌==◌, string_eq, eq_iff, arith, Bool-cases,
}
use durallm.Common.Dict
use durallm.Common.Fallible.{returns, has_returned}
use durallm.Continuation.Model.{
  ContinuationRequest, ContinuationEvent, CheckpointData, acp_version, is_identifier, is_digest,
  same_option,
}
use durallm.Continuation.Store
use durallm.Continuation.Store.{
  Fresh, Answer, on_session, begin_session, session_for, check_parent, interrupt_session,
  acknowledge_session, acknowledge_checkpoint, complete_session, session_id_of, active_session,
  is_idle, valid_or_absent, validate_request,
}
use durallm.Continuation.Epochs.{ContinuationOp, run}
use durallm.Continuation.Handshake.{
  on_session-inverse, begin_session-acknowledged, begin_turn-returned,
}
use durallm.Continuation.Orderly.{IsOrderly, run-IsOrderly, acknowledge_session-opens}

acknowledge-inverse :
    (id turn_id : String) (epoch : ℕ) (digest : String) (x : Fresh) (store store' : Store.Store)
    (event : ContinuationEvent)
    → Store.acknowledge id turn_id epoch digest x store ≡ returns (event, store')
    → (is_identifier id ≡ true)
      × (is_digest digest ≡ true)
      × (on_session id (acknowledge_session id turn_id epoch digest x) store
          ≡ returns (event, store'))
unfolding Store.acknowledge
acknowledge-inverse id turn_id epoch digest x store store' event h =
    (ground arith, ground arith, ground arith)

validate_request-returned :
    (request : ContinuationRequest)
    → has_returned (validate_request request) ≡ (
        request.protocol_version == acp_version
        && valid_or_absent is_identifier request.session_id
        && is_digest request.state_digest
        && valid_or_absent is_digest request.parent_checkpoint_digest)
unfolding validate_request
validate_request-returned request = ground arith

named-valid :
    (o : Option String) (later : Fresh) (id : String)
    → session_id_of o later ≡ id
    → is_identifier id ≡ true
    → valid_or_absent is_identifier o ≡ true
named-valid none later id e h = refl
named-valid (some i) later id e h = elim (Bool-cases (i == "")) [
  | inl empty ↦ rw empty refl
  | inr given ↦ let same : i ≡ id = ground arith in rw given (ap is_identifier same ∙ h)
]

parent-valid :
    (o : Option String) (digest : String)
    → is_digest digest ≡ true
    → same_option o (some digest) ≡ true
    → valid_or_absent is_digest o ≡ true
parent-valid none digest h e = cc
parent-valid (some d) digest h e =
    let same : d ≡ digest = (eq_iff d digest).0 e in
    let ok : is_digest d ≡ true = ap is_digest same ∙ h in ground arith

-- What is asked of the next request, boiled down.
next_test :
    (version : String) (request : ContinuationRequest) (idle : Bool) (digest : String)
    → version ≡ acp_version
    → idle ≡ true
    → valid_or_absent is_identifier request.session_id ≡ true
    → is_digest digest ≡ true
    → ((request.protocol_version == acp_version
          && valid_or_absent is_identifier request.session_id
          && is_digest request.state_digest
          && valid_or_absent is_digest request.parent_checkpoint_digest)
        && (version == request.protocol_version
            && idle
            && same_option request.parent_checkpoint_digest (some digest)))
      ≡ (request.protocol_version == acp_version
          && is_digest request.state_digest
          && same_option request.parent_checkpoint_digest (some digest))
next_test version request idle digest v i named hex =
    let there = eq_iff request.protocol_version acp_version in
    let back = eq_iff acp_version request.protocol_version in
    rw v (
      rw i (
        rw named (elim (Bool-cases (same_option request.parent_checkpoint_digest (some digest))) [
          | inr stale ↦ rw stale (ground arith)
          | inl same ↦
              rw same
                (rw (parent-valid request.parent_checkpoint_digest digest hex same) (ground arith))
        ])))

module _ (canonical_digest : CheckpointData → String) where
  -- Right after an acknowledgement that returned, in a store that came of any calls on a new one,
  -- `begin_turn` returns for the session exactly if the request is of the protocol's version, has a
  -- well-formed digest of its state, and names the digest that was acknowledged as its parent.
  pub begin_turn-acknowledge :
      (ops : List ContinuationOp) (id turn_id : String) (epoch : ℕ) (digest : String) (x : Fresh)
      (store' : Store.Store) (event : ContinuationEvent)
      → Store.acknowledge id turn_id epoch digest x (run canonical_digest [] ops)
        ≡ returns (event, store')
      → (request : ContinuationRequest) (later : Fresh)
      → session_id_of request.session_id later ≡ id
      → has_returned (Store.begin_turn request later store') ≡ (
          request.protocol_version == acp_version
          && is_digest request.state_digest
          && same_option request.parent_checkpoint_digest (some digest))
  begin_turn-acknowledge ops id turn_id epoch digest x store' event h request later same =
      let store = run canonical_digest [] ops in
      let method = acknowledge_session id turn_id epoch digest x in
      let (named, hex, returned) =
        acknowledge-inverse id turn_id epoch digest x store store' event h in
      let (s, e, found) = on_session-inverse id method store store' event returned in
      let orderly : IsOrderly (Dict.lookup id store) =
        run-IsOrderly canonical_digest id [] ops (unfold Dict.lookup in tt) in
      let (c, latest, done, is_digest_of, idle, version) =
        acknowledge_session-opens id turn_id epoch digest x (Dict.lookup id store) s event orderly
          e in
      let id' = session_id_of request.session_id later in
      let begun =
        begin_turn-returned request later store' s
          (subst (λ k. Dict.lookup k store' ≡ some s) (sym same) found) in
      let asked = begin_session-acknowledged request id' later s c latest done in
      begun
      ∙ ap (λ b. b && has_returned (begin_session request id' later (some s)))
          (validate_request-returned request)
      ∙ ap
          (λ b.
            (request.protocol_version == acp_version
              && valid_or_absent is_identifier request.session_id
              && is_digest request.state_digest
              && valid_or_absent is_digest request.parent_checkpoint_digest)
            && b)
          (asked
            ∙ ap
                (λ d.
                  s.protocol_version == request.protocol_version
                  && is_idle s.active_turn_id
                  && same_option request.parent_checkpoint_digest (some d))
                is_digest_of)
      ∙ next_test s.protocol_version request (is_idle s.active_turn_id) digest version idle
          (named-valid request.session_id later id same named) hex
