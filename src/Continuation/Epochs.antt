-- ===== src/Continuation/Epochs.antt =====
-- An epoch of a session is completed at most once.
use mathlib.Core.Path.{subst}
use durallm.Common.{
  ℕ, ◌+◌, ◌≤◌, ◌<◌, ◌≡◌, refl, sym, ap, ◌∙◌, inl, inr, Bool, true, false, ◌&&◌, Option, none, some,
  String, List, [], ◌∷◌, nat_beq, ◌==◌, string_eq, eq_iff, if◌then◌else◌, arith, Bool-cases,
  and-eq_true,
}
use durallm.Common.Dict
use durallm.Common.Fallible.{returns, raises, has_returned, Fallible-cases, ◌>>◌, ensure}
use durallm.Continuation.Model.{
  ContinuationRequest, ContinuationTurn, ContinuationEvent, CheckpointData, Session,
  invalid_identifier, invalid_digest, is_identifier, is_digest,
}
use durallm.Continuation.Store
use durallm.Continuation.Store.{
  Fresh, Answer, on_session, begin_session, interrupt_session, acknowledge_session,
  complete_session, session_id_of, is_active, active_session,
}

-- One call of a method.
pub data ContinuationOp : Type 0 where
  begin : ContinuationRequest → Fresh → ContinuationOp
  complete : ContinuationTurn → String → String → String → Fresh → ContinuationOp
  acknowledge : String → String → ℕ → String → Fresh → ContinuationOp
  interrupt : ContinuationTurn → String → Fresh → ContinuationOp

-- The store after a call; a call that raises leaves it.
abbrev pub settled : {A : Type 0} → Answer (A × Store.Store) → Store.Store → Store.Store
settled (returns (a, store')) store = store'
settled (raises e) store = store

abbrev Agrees : Option ℕ → ℕ → Type 0
Agrees none n = Unit
Agrees (some epoch) n = epoch ≡ n

-- An active turn is at the next epoch.
abbrev IsSound : Option Session → Type 0
IsSound none = Unit
IsSound (some s) = Agrees s.active_epoch s.next_epoch

abbrev next : Option Session → ℕ
next none = 0
next (some s) = s.next_epoch

-- What a method does to a session: it stays sound, and its next epoch does not fall.
abbrev Moves : Option Session → Option Session → Type 0
Moves o o' = IsSound o → IsSound o' × (next o ≤ next o')

-- A method that returns has moved its session.
abbrev IsMove : {A : Type 0} → (Option Session → Answer (Session × A)) → Type 0
IsMove {A} method =
    (o : Option Session) (s : Session) (a : A) → method o ≡ returns (s, a) → Moves o (some s)

begin-IsMove :
    (request : ContinuationRequest) (id : String) (x : Fresh) → IsMove (begin_session request id x)
unfolding begin_session
begin-IsMove request id x none s a e h = ground arith
begin-IsMove request id x (some old) s a e h = ground arith

interrupt-IsMove :
    (turn : ContinuationTurn) (detail : String) (x : Fresh)
    → IsMove (interrupt_session turn detail x)
unfolding interrupt_session
interrupt-IsMove turn detail x none s a e h = ground arith
interrupt-IsMove turn detail x (some old) s a e h = ground arith

acknowledge-IsMove :
    (id turn_id : String) (epoch : ℕ) (digest : String) (x : Fresh)
    → IsMove (acknowledge_session id turn_id epoch digest x)
unfolding acknowledge_session
acknowledge-IsMove id turn_id epoch digest x none s a e h = ground arith
acknowledge-IsMove id turn_id epoch digest x (some old) s a e h = ground arith

on_session-settled :
    {A : Type 0} (id key : String) (method : Option Session → Answer (Session × A))
    (store : Store.Store)
    → IsMove method
    → Moves (Dict.lookup key store) (Dict.lookup key (settled (on_session id method store) store))
unfolding on_session
on_session-settled id key method store move sound =
    elim (Fallible-cases (method (Dict.lookup id store))) [
      | inr (error, e) ↦ rw (e, on_session) (sound, omega arith)
      | inl ((s, a), e) ↦ elim (Bool-cases (id == key)) [
        | inl same ↦
            let eq : id ≡ key = (eq_iff id key).0 same in
            rw (e, on_session)
              (rw Dict.lookup-insert (
                rw same (
                  subst (λ k. Moves (Dict.lookup k store) (some s)) eq
                    (move (Dict.lookup id store) s a e) sound)))
        | inr other ↦ rw (e, on_session) (rw Dict.lookup-insert (rw other (sound, omega arith)))
      ]
    ]

-- A test in front of a method.
guarded :
    {A : Type 0} (key : String) (test : Answer (Unit {0})) (rest : Answer (A × Store.Store))
    (store : Store.Store)
    → Moves (Dict.lookup key store) (Dict.lookup key (settled rest store))
    → Moves (Dict.lookup key store) (Dict.lookup key (settled (test >> rest) store))
guarded key (returns done) rest store move = move
guarded key (raises e) rest store move = λ sound. (sound, omega arith)

is_active-next :
    (turn : ContinuationTurn) (id : Option String) (epoch : Option ℕ) (n : ℕ)
    → is_active turn id epoch ≡ true
    → Agrees epoch n
    → n ≡ turn.epoch
is_active-next turn none epoch n h a = ground arith
is_active-next turn (some id) none n h a = ground arith
is_active-next turn (some id) (some epoch) n h a = ground arith

on_session-returned :
    {A : Type 0} (id : String) (method : Option Session → Answer (Session × A))
    (store : Store.Store)
    → has_returned (on_session id method store) ≡ true
    → has_returned (method (Dict.lookup id store)) ≡ true
unfolding on_session
on_session-returned id method store h = elim (Fallible-cases (method (Dict.lookup id store))) [
  | inl ((s, a), e) ↦ rw e refl
  | inr (error, e) ↦
      let no : has_returned (on_session id method store) ≡ false = rw (e, on_session) refl in cc
]

on_session-next :
    {A : Type 0} (id : String) (method : Option Session → Answer (Session × A))
    (store : Store.Store) (s : Session) (a : A)
    → method (Dict.lookup id store) ≡ returns (s, a)
    → Dict.lookup id (settled (on_session id method store) store) ≡ some s
unfolding on_session
on_session-next id method store s a e = rw (e, on_session) (Dict.lookup-insert_self id s store)

module _ (canonical_digest : CheckpointData → String) where
  complete-IsMove :
      (turn : ContinuationTurn) (request_digest response_digest endpoint : String) (x : Fresh)
      → IsMove (complete_session canonical_digest turn request_digest response_digest endpoint x)
  unfolding complete_session
  complete-IsMove turn request_digest response_digest endpoint x none s a e h = ground arith
  complete-IsMove turn request_digest response_digest endpoint x (some old) s a e h = ground arith

  unfoldable pub step : ContinuationOp → Store.Store → Store.Store
  step (begin request x) store = settled (Store.begin_turn request x store) store
  step (complete turn request_digest response_digest endpoint x) store =
      settled
        (Store.complete_turn canonical_digest turn request_digest response_digest endpoint x store)
        store
  step (acknowledge id turn_id epoch digest x) store =
      settled (Store.acknowledge id turn_id epoch digest x store) store
  step (interrupt turn detail x) store = settled (Store.interrupt_turn turn detail x store) store

  unfoldable pub run : Store.Store → List ContinuationOp → Store.Store
  run store [] = store
  run store (op ∷ ops) = run (step op store) ops

  step-Moves :
      (key : String) (op : ContinuationOp) (store : Store.Store)
      → Moves (Dict.lookup key store) (Dict.lookup key (step op store))
  unfolding step Store.begin_turn Store.complete_turn Store.acknowledge Store.interrupt_turn
  step-Moves key (begin request x) store =
      let id = session_id_of request.session_id x in
      guarded key (Store.validate_request request) _ store
        (on_session-settled id key (begin_session request id x) store (begin-IsMove request id x))
  step-Moves key (complete turn request_digest response_digest endpoint x) store =
      on_session-settled turn.session_id key
        (complete_session canonical_digest turn request_digest response_digest endpoint x) store
        (complete-IsMove turn request_digest response_digest endpoint x)
  step-Moves key (acknowledge id turn_id epoch digest x) store =
      guarded key (ensure (is_identifier id) invalid_identifier) _ store (
        guarded key (ensure (is_identifier turn_id) invalid_identifier) _ store (
          guarded key (ensure (is_digest digest) invalid_digest) _ store (
            on_session-settled id key (acknowledge_session id turn_id epoch digest x) store
              (acknowledge-IsMove id turn_id epoch digest x))))
  step-Moves key (interrupt turn detail x) store =
      on_session-settled turn.session_id key (interrupt_session turn detail x) store
        (interrupt-IsMove turn detail x)

  -- The call completes this epoch of the session, and does not raise.
  abbrev pub completes : String → ℕ → ContinuationOp → Store.Store → Bool
  completes key epoch (complete turn request_digest response_digest endpoint x) store =
      turn.session_id == key
      && nat_beq turn.epoch epoch
      && has_returned (
          Store.complete_turn canonical_digest turn request_digest response_digest endpoint x store)
  completes key epoch _ store = false

  -- How many calls of a run complete it.
  unfoldable pub completions : String → ℕ → Store.Store → List ContinuationOp → ℕ
  completions key epoch store [] = 0
  completions key epoch store (op ∷ ops) =
      (if completes key epoch op store then 1 else 0) + completions key epoch (step op store) ops

  complete_effect :
      (turn : ContinuationTurn) (request_digest response_digest endpoint : String) (x : Fresh)
      (o : Option Session)
      → IsSound o
      → has_returned
          (complete_session canonical_digest turn request_digest response_digest endpoint x o)
        ≡ true
      → (next o ≡ turn.epoch)
        × ((s : Session) × (event : ContinuationEvent) × (complete_session canonical_digest turn
                request_digest response_digest endpoint x o
              ≡ returns (s, event))
            × (s.next_epoch ≡ turn.epoch + 1))
  unfolding complete_session active_session
  complete_effect turn request_digest response_digest endpoint x none sound h = ground arith
  complete_effect turn request_digest response_digest endpoint x (some s) sound h =
      elim (Bool-cases (is_active turn s.active_turn_id s.active_epoch)) [
        | inl active ↦ (
          is_active-next turn s.active_turn_id s.active_epoch s.next_epoch active sound,
          rw (active, complete_session, active_session) (_, _, refl, refl),
        )
        | inr idle ↦ ground arith
      ]

  complete_turn_effect :
      (turn : ContinuationTurn) (request_digest response_digest endpoint : String) (x : Fresh)
      (store : Store.Store)
      → IsSound (Dict.lookup turn.session_id store)
      → has_returned (
          Store.complete_turn canonical_digest turn request_digest response_digest endpoint x store)
        ≡ true
      → (next (Dict.lookup turn.session_id store) ≡ turn.epoch)
        × (next (
              Dict.lookup turn.session_id
                (step (complete turn request_digest response_digest endpoint x) store))
            ≡ turn.epoch + 1)
  unfolding step Store.complete_turn
  complete_turn_effect turn request_digest response_digest endpoint x store sound h =
      let id = turn.session_id in
      let method =
        complete_session canonical_digest turn request_digest response_digest endpoint x in
      let o = Dict.lookup id store in
      let (before, (s, event, e, after)) =
        complete_effect turn request_digest response_digest endpoint x o sound
          (on_session-returned id method store h) in
      (before, ap next (on_session-next id method store s event e) ∙ after)

  completes_effect :
      (key : String) (epoch : ℕ) (op : ContinuationOp) (store : Store.Store)
      → IsSound (Dict.lookup key store)
      → completes key epoch op store ≡ true
      → (next (Dict.lookup key store) ≡ epoch)
        × (next (Dict.lookup key (step op store)) ≡ epoch + 1)
  completes_effect key epoch (begin _ _) store sound h = cc
  completes_effect key epoch (acknowledge _ _ _ _ _) store sound h = cc
  completes_effect key epoch (interrupt _ _ _) store sound h = cc
  completes_effect key epoch (complete turn request_digest response_digest endpoint x) store sound
        h =
      let (named, returned) = and-eq_true h in
      let (same, at) = and-eq_true named in
      let epoch_eq : turn.epoch ≡ epoch = ground arith in
      let key_eq : turn.session_id ≡ key = (eq_iff turn.session_id key).0 same in
      let (before, after) =
        complete_turn_effect turn request_digest response_digest endpoint x store
          (subst (λ k. IsSound (Dict.lookup k store)) (sym key_eq) sound) returned in
      let op = complete turn request_digest response_digest endpoint x in
      (
        subst (λ k. next (Dict.lookup k store) ≡ epoch) key_eq (before ∙ epoch_eq),
        subst (λ k. next (Dict.lookup k (step op store)) ≡ epoch + 1) key_eq
            (after ∙ ap (λ n. n + 1) epoch_eq),
      )

  past_completions :
      (key : String) (epoch : ℕ) (store : Store.Store) (ops : List ContinuationOp)
      → IsSound (Dict.lookup key store)
      → epoch < next (Dict.lookup key store)
      → completions key epoch store ops ≡ 0
  unfolding completions
  past_completions key epoch store [] sound past = refl
  past_completions key epoch store (op ∷ ops) sound past =
      let (sound', up) = step-Moves key op store sound in
      let ih = past_completions key epoch (step op store) ops sound' (omega arith) in
      elim (Bool-cases (completes key epoch op store)) [
        | inl yes' ↦ let eq = (completes_effect key epoch op store sound yes').0 in omega arith
        | inr no' ↦ rw no' (omega arith)
      ]

  -- In any sequence of calls by any clients, with interruptions, repeated and rejected calls among
  -- them, at most one call completes a given epoch of a given session, if the session is at its next
  -- epoch or has no turn at first. A new store has no session.
  pub completions-le-one :
      (key : String) (epoch : ℕ) (store : Store.Store) (ops : List ContinuationOp)
      → IsSound (Dict.lookup key store)
      → completions key epoch store ops ≤ 1
  unfolding completions
  completions-le-one key epoch store [] sound = omega arith
  completions-le-one key epoch store (op ∷ ops) sound =
      let (sound', up) = step-Moves key op store sound in
      elim (Bool-cases (completes key epoch op store)) [
        | inl yes' ↦
            let eq = (completes_effect key epoch op store sound yes').1 in
            let none_later = past_completions key epoch (step op store) ops sound' (omega arith) in
            rw yes' (omega arith)
        | inr no' ↦
            let ih = completions-le-one key epoch (step op store) ops sound' in rw no' (omega arith)
      ]
