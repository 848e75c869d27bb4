-- ===== src/Continuation/Waiting.antt =====
-- Sessions of durallm/continuation/store.py whose checkpoint is not acknowledged.
use mathlib.Core.Path.{subst}
use durallm.Common.{
  ℕ, ◌≡◌, refl, sym, ap, inl, inr, true, false, ◌&&◌, Option, none, some, String, List, [], ◌∷◌,
  nat_beq, ◌==◌, string_eq, eq_iff, arith, Bool-cases, All,
}
use durallm.Common.Dict
use durallm.Common.Fallible.{returns, raises, has_returned, Fallible-cases, ◌>>◌, ensure}
use durallm.Continuation.Model.{
  ContinuationRequest, Checkpoint, ContinuationTurn, ContinuationEvent, CheckpointData, Session,
  turn_not_active, acknowledgement_mismatch, invalid_identifier, invalid_digest, is_identifier,
  is_digest,
}
use durallm.Continuation.Store
use durallm.Continuation.Store.{
  Fresh, Answer, on_session, begin_session, interrupt_session, acknowledge_session,
  acknowledge_checkpoint, complete_session, session_id_of, active_session, is_active,
}
use durallm.Continuation.Epochs.{
  ContinuationOp, begin, complete, acknowledge, interrupt, settled, step, run,
}
use durallm.Continuation.Handshake.{on_session-inverse, begin_session-waiting, begin_turn-returned}

-- What a method keeps of its session, the call keeps of every session.
pub on_session-keeps :
    {A : Type 0} (P : Option Session → Type 0) (id key : String)
    (method : Option Session → Answer (Session × A)) (store : Store.Store)
    → (id ≡ key
        → (o : Option Session) (s : Session) (a : A) → P o
        → method o ≡ returns (s, a)
        → P (some s))
    → P (Dict.lookup key store)
    → P (Dict.lookup key (settled (on_session id method store) store))
unfolding on_session
on_session-keeps P id key method store keep h =
    elim (Fallible-cases (method (Dict.lookup id store))) [
      | inr (error, e) ↦ rw (e, on_session) h
      | inl ((s, a), e) ↦ elim (Bool-cases (id == key)) [
        | inl same ↦
            let eq : id ≡ key = (eq_iff id key).0 same in
            rw (e, on_session)
              (rw Dict.lookup-insert (
                rw same (
                  keep eq (Dict.lookup key store) s a h
                    (subst (λ k. method (Dict.lookup k store) ≡ returns (s, a)) eq e))))
        | inr other ↦ rw (e, on_session) (rw Dict.lookup-insert (rw other h))
      ]
    ]

-- A test in front of a method.
pub guard-keeps :
    {A : Type 0} (P : Option Session → Type 0) (key : String) (test : Answer (Unit {0}))
    (rest : Answer (A × Store.Store)) (store : Store.Store)
    → P (Dict.lookup key store)
    → (has_returned test ≡ true → P (Dict.lookup key (settled rest store)))
    → P (Dict.lookup key (settled (test >> rest) store))
guard-keeps P key (returns done) rest store h k = k refl
guard-keeps P key (raises e) rest store h k = h

-- The session has this checkpoint, which is not acknowledged, and no turn.
abbrev Waits : Checkpoint → Option Session → Type 0
Waits c none = ⊥
Waits c (some s) =
    (s.latest_checkpoint ≡ some c)
    × (s.latest_checkpoint_acknowledged ≡ false)
    × (s.active_turn_id ≡ none)

-- The call is no acknowledgement of this checkpoint of the session.
abbrev pub Ignores : String → Checkpoint → ContinuationOp → Type 0
Ignores key c (acknowledge id turn_id epoch digest x) =
    (id == key && c.turn_id == turn_id && nat_beq c.epoch epoch && c.gateway_digest == digest)
    ≡ false
Ignores key c _ = Unit

begin-Waits :
    (request : ContinuationRequest) (id : String) (x : Fresh) (c : Checkpoint) (o : Option Session)
    (s : Session) (t : ContinuationTurn)
    → Waits c o
    → begin_session request id x o ≡ returns (s, t)
    → Waits c (some s)
begin-Waits request id x c none s t h e = absurd h
begin-Waits request id x c (some old) s t h e =
    let no = begin_session-waiting request id x old c h.0 h.1 in let yes' = ap has_returned e in cc

inactive :
    (turn : ContinuationTurn) (old : Session)
    → old.active_turn_id ≡ none
    → active_session turn (some old) ≡ raises turn_not_active
unfolding active_session
inactive turn old h = rw h refl

interrupt-Waits :
    (turn : ContinuationTurn) (detail : String) (x : Fresh) (c : Checkpoint) (o : Option Session)
    (s : Session) (event : ContinuationEvent)
    → Waits c o
    → interrupt_session turn detail x o ≡ returns (s, event)
    → Waits c (some s)
unfolding interrupt_session
interrupt-Waits turn detail x c none s event h e = absurd h
interrupt-Waits turn detail x c (some old) s event h e =
    let refused : interrupt_session turn detail x (some old) ≡ raises turn_not_active =
      rw (inactive turn old h.2) refl in
    let yes' = ap has_returned e in let no' = ap has_returned refused in cc

acknowledge-Waits :
    (id turn_id : String) (epoch : ℕ) (digest : String) (x : Fresh) (c : Checkpoint)
    (o : Option Session) (s : Session) (event : ContinuationEvent)
    → (c.turn_id == turn_id && nat_beq c.epoch epoch && c.gateway_digest == digest) ≡ false
    → Waits c o
    → acknowledge_session id turn_id epoch digest x o ≡ returns (s, event)
    → Waits c (some s)
unfolding acknowledge_session acknowledge_checkpoint
acknowledge-Waits id turn_id epoch digest x c none s event other h e = absurd h
acknowledge-Waits id turn_id epoch digest x c (some old) s event other h e =
    let refused : acknowledge_session id turn_id epoch digest x (some old)
        ≡ raises acknowledgement_mismatch =
      rw (h.0, acknowledge_session) (rw other refl) in
    let yes' = ap has_returned e in let no' = ap has_returned refused in cc

module _ (canonical_digest : CheckpointData → String) where
  complete-Waits :
      (turn : ContinuationTurn) (request_digest response_digest endpoint : String) (x : Fresh)
      (c : Checkpoint) (o : Option Session) (s : Session) (event : ContinuationEvent)
      → Waits c o
      → complete_session canonical_digest turn request_digest response_digest endpoint x o
        ≡ returns (s, event)
      → Waits c (some s)
  unfolding complete_session
  complete-Waits turn request_digest response_digest endpoint x c none s event h e = absurd h
  complete-Waits turn request_digest response_digest endpoint x c (some old) s event h e =
      let refused : complete_session canonical_digest turn request_digest response_digest endpoint x
            (some old)
          ≡ raises turn_not_active =
        rw (inactive turn old h.2) refl in
      let yes' = ap has_returned e in let no' = ap has_returned refused in cc

  step-Waits :
      (key : String) (c : Checkpoint) (op : ContinuationOp) (store : Store.Store)
      → Ignores key c op
      → Waits c (Dict.lookup key store)
      → Waits c (Dict.lookup key (step canonical_digest op store))
  unfolding step Store.begin_turn Store.complete_turn Store.acknowledge Store.interrupt_turn
  step-Waits key c (begin request x) store other h =
      let id = session_id_of request.session_id x in
      guard-keeps (Waits c) key (Store.validate_request request) _ store h λ valid.
        on_session-keeps (Waits c) id key (begin_session request id x) store
          (λ same o s t k e. begin-Waits request id x c o s t k e) h
  step-Waits key c (complete turn request_digest response_digest endpoint x) store other h =
      on_session-keeps (Waits c) turn.session_id key
        (complete_session canonical_digest turn request_digest response_digest endpoint x) store
        (λ same o s event k e.
          complete-Waits turn request_digest response_digest endpoint x c o s event k e)
        h
  step-Waits key c (acknowledge id turn_id epoch digest x) store other h =
      guard-keeps (Waits c) key (ensure (is_identifier id) invalid_identifier) _ store h λ a.
        guard-keeps (Waits c) key (ensure (is_identifier turn_id) invalid_identifier) _ store h λ b.
          guard-keeps (Waits c) key (ensure (is_digest digest) invalid_digest) _ store h λ d.
            on_session-keeps (Waits c) id key (acknowledge_session id turn_id epoch digest x) store
              (λ same o s event k e.
                acknowledge-Waits id turn_id epoch digest x c o s event
                  (let named = (eq_iff id key).1 same in ground arith) k e)
              h
  step-Waits key c (interrupt turn detail x) store other h =
      on_session-keeps (Waits c) turn.session_id key (interrupt_session turn detail x) store
        (λ same o s event k e. interrupt-Waits turn detail x c o s event k e) h

  run-Waits :
      (key : String) (c : Checkpoint) (store : Store.Store) (ops : List ContinuationOp)
      → All (Ignores key c) ops
      → Waits c (Dict.lookup key store)
      → Waits c (Dict.lookup key (run canonical_digest store ops))
  unfolding run
  run-Waits key c store [] others h = h
  run-Waits key c store (op ∷ ops) others h =
      run-Waits key c (step canonical_digest op store) ops others.1
        (step-Waits key c op store others.0 h)

  complete_session-Waits :
      (turn : ContinuationTurn) (request_digest response_digest endpoint : String) (x : Fresh)
      (o : Option Session) (s : Session) (event : ContinuationEvent)
      → complete_session canonical_digest turn request_digest response_digest endpoint x o
        ≡ returns (s, event)
      → Waits
          (Store.checkpoint_of canonical_digest turn request_digest response_digest endpoint x)
          (some s)
  unfolding complete_session active_session
  complete_session-Waits turn request_digest response_digest endpoint x none s event h = cc
  complete_session-Waits turn request_digest response_digest endpoint x (some old) s event h =
      (ground arith, ground arith, ground arith)

  waiting_refuses :
      (key : String) (c : Checkpoint) (store : Store.Store) (request : ContinuationRequest)
      (later : Fresh)
      → session_id_of request.session_id later ≡ key
      → Waits c (Dict.lookup key store)
      → has_returned (Store.begin_turn request later store) ≡ false
  waiting_refuses key c store request later same h = refuses (Dict.lookup key store) refl h
    where
      refuses :
          (o : Option Session)
          → Dict.lookup key store ≡ o
          → Waits c o
          → has_returned (Store.begin_turn request later store) ≡ false
      refuses none e w = absurd w
      refuses (some s) e w =
          let id = session_id_of request.session_id later in
          let refused = begin_session-waiting request id later s c w.0 w.1 in
          let eq =
            begin_turn-returned request later store s
              (subst (λ k. Dict.lookup k store ≡ some s) (sym same) e) in
          grind arith

  -- After a turn was completed, and through any calls by any clients that do not acknowledge its
  -- checkpoint by the session, the turn, the epoch and the digest, `begin_turn` raises for the
  -- session, whatever the request says: beginnings, completions, interruptions, and
  -- acknowledgements that name anything else do not open the session.
  pub begin_turn-complete_turn :
      (turn : ContinuationTurn) (request_digest response_digest endpoint : String) (x : Fresh)
      (store store' : Store.Store) (event : ContinuationEvent) (ops : List ContinuationOp)
      → Store.complete_turn canonical_digest turn request_digest response_digest endpoint x store
        ≡ returns (event, store')
      → All
          (Ignores turn.session_id
            (Store.checkpoint_of canonical_digest turn request_digest response_digest endpoint x))
          ops
      → (request : ContinuationRequest) (later : Fresh)
      → session_id_of request.session_id later ≡ turn.session_id
      → has_returned (Store.begin_turn request later (run canonical_digest store' ops)) ≡ false
  unfolding Store.complete_turn
  begin_turn-complete_turn turn request_digest response_digest endpoint x store store' event ops h
        others request later same =
      let method =
        complete_session canonical_digest turn request_digest response_digest endpoint x in
      let c = Store.checkpoint_of canonical_digest turn request_digest response_digest endpoint x in
      let (s, e, found) = on_session-inverse turn.session_id method store store' event h in
      let waits =
        complete_session-Waits turn request_digest response_digest endpoint x
          (Dict.lookup turn.session_id store) s event e in
      waiting_refuses turn.session_id c (run canonical_digest store' ops) request later same
        (run-Waits turn.session_id c store' ops others (subst (Waits c) (sym found) waits))
