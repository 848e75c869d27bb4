-- ===== src/Continuation/Handshake.antt =====
-- `begin_turn` of durallm/continuation/store.py on a session that is there.
use durallm.Common.{
  ◌≡◌, refl, inl, inr, true, false, ◌&&◌, Option, some, String, ◌==◌, string_eq, arith,
}
use durallm.Common.Dict
use durallm.Common.Fallible.{returns, raises, has_returned, Fallible-cases}
use durallm.Continuation.Model.{ContinuationRequest, Checkpoint, Session, same_option}
use durallm.Continuation.Store
use durallm.Continuation.Store.{
  Fresh, Answer, on_session, begin_session, acknowledge_session, acknowledge_checkpoint,
  complete_session, session_id_of, session_for, check_parent, is_idle, active_session, is_active,
}

-- What a method on a session that returned did to the store.
pub on_session-inverse :
    {A : Type 0} (id : String) (method : Option Session → Answer (Session × A))
    (store store' : Store.Store) (a : A)
    → on_session id method store ≡ returns (a, store')
    → (s : Session) × (method (Dict.lookup id store) ≡ returns (s, a))
      × (Dict.lookup id store' ≡ some s)
unfolding on_session
on_session-inverse id method store store' a h =
    elim (Fallible-cases (method (Dict.lookup id store))) [
      | inl ((s, b), e) ↦
          let same : returns (b, Dict.insert id s store) ≡ on_session id method store =
            rw (e, on_session) refl in
          let found = Dict.lookup-insert_self id s store in (s, ground arith, ground arith)
      | inr (error, e) ↦
          let no : raises error ≡ on_session id method store = rw (e, on_session) refl in
          ground arith
    ]

-- `begin_turn` on a session whose latest checkpoint waits for its acknowledgement
pub begin_session-waiting :
    (request : ContinuationRequest) (id : String) (x : Fresh) (s : Session) (c : Checkpoint)
    → s.latest_checkpoint ≡ some c
    → s.latest_checkpoint_acknowledged ≡ false
    → has_returned (begin_session request id x (some s)) ≡ false
unfolding begin_session session_for check_parent
begin_session-waiting request id x s c latest waiting = ground arith

pub begin_session-acknowledged :
    (request : ContinuationRequest) (id : String) (x : Fresh) (s : Session) (c : Checkpoint)
    → s.latest_checkpoint ≡ some c
    → s.latest_checkpoint_acknowledged ≡ true
    → has_returned (begin_session request id x (some s)) ≡ (
        s.protocol_version == request.protocol_version
        && is_idle s.active_turn_id
        && same_option request.parent_checkpoint_digest (some c.gateway_digest))
unfolding begin_session session_for check_parent
begin_session-acknowledged request id x s c latest done = ground arith

pub begin_turn-returned :
    (request : ContinuationRequest) (x : Fresh) (store : Store.Store) (s : Session)
    → Dict.lookup (session_id_of request.session_id x) store ≡ some s
    → has_returned (Store.begin_turn request x store) ≡ (
        has_returned (Store.validate_request request)
        && has_returned (begin_session request (session_id_of request.session_id x) x (some s)))
unfolding Store.begin_turn on_session
begin_turn-returned request x store s found =
    let id = session_id_of request.session_id x in
    elim (Fallible-cases (Store.validate_request request)) [
      | inr (e, invalid) ↦ rw (invalid, Store.begin_turn) refl
      | inl (done, valid) ↦ elim (Fallible-cases (begin_session request id x (some s))) [
        | inr (e, refused) ↦ rw (valid, Store.begin_turn) (rw (found, on_session) (rw refused refl))
        | inl (r, begun) ↦ rw (valid, Store.begin_turn) (rw (found, on_session) (rw begun refl))
      ]
    ]
