-- ===== src/DurableStore/Once.antt =====
-- An operation is submitted at most once, and a committed receipt stays.
use mathlib.Core.Path.{subst}
use durallm.Common.{
  ℕ, ◌+◌, ◌≤◌, ◌≡◌, refl, sym, ap, ◌∙◌, ◌&&◌, inl, inr, Bool, true, false, Option, none, some,
  String, List, [], ◌∷◌, if◌then◌else◌, ◌==◌, string_eq, eq_iff, arith, Bool-cases, Option-cases,
  and-eq_true,
}
use durallm.Common.Dict
use durallm.Common.Dict.{Dict}
use durallm.ToolLedger.{submitted}
use durallm.DurableStore
use durallm.DurableStore.Tables
use durallm.DurableStore.Tables.{
  Result, ok, err, Database, Lease, OperationRow, submittable, is_committed, is_submitted,
  operation_for_call, joined,
}
use durallm.DurableStore.Calls.{
  StoreOp, prepare, validate, submit, commit, lose, fail, recover, acquire, release, settled_lease,
  step, run,
}
use durallm.DurableStore.Advance.{row_at, Advances, found_at}
use durallm.DurableStore.Steps.{Fine-step}

abbrev pub is_ok : {A : Type 0} → Result A → Bool
is_ok (ok a) = true
is_ok (err e) = false

module _ {Args Receipt : Type 0} where
  -- The operation of the key is there and is past the submittable states.
  abbrev IsPast : Option (OperationRow Args Receipt) → Type 0
  IsPast none = ⊥
  IsPast (some row) = submittable row.status ≡ false

  IsPast-Advances :
      (o o' : Option (OperationRow Args Receipt)) → Advances o o' → IsPast o → IsPast o'
  IsPast-Advances none o' a h = absurd h
  IsPast-Advances (some old) none a h = absurd a
  IsPast-Advances (some old) (some new) a h = a.dispatched h

  abbrev is_key : String → Option (Tables.StoredOperation Args Receipt) → Bool
  is_key key none = false
  is_key key (some op) = op.operation_key == key

  -- The call submits the operation of this key, and does not raise.
  abbrev pub submits : String → StoreOp Args Receipt → Database Args Receipt → Bool
  submits key (submit call owner ttl now) s =
      is_ok (DurableStore.mark_operation_submitted call owner ttl now s)
      && is_key key (operation_for_call call s)
  submits key _ s = false

  -- What a submission does once its operation is found and the lease was asked for.
  submit_found :
      (call owner : String) (ttl now : ℕ) (s : Database Args Receipt)
      (op : Tables.StoredOperation Args Receipt)
      → operation_for_call call s ≡ some op
      → DurableStore.mark_operation_submitted call owner ttl now s ≡ (
          if submittable op.status
          then DurableStore.submit_with
              (Tables.acquire_lease (Tables.lease_of op.operation_key) owner ttl now s)
              op
              now
          else err Tables.durable_store_error)
  unfolding DurableStore.mark_operation_submitted
  submit_found call owner ttl now s op e = rw (e, DurableStore.mark_operation_submitted)

  submit_absent :
      (call owner : String) (ttl now : ℕ) (s : Database Args Receipt)
      → operation_for_call call s ≡ none
      → DurableStore.mark_operation_submitted call owner ttl now s ≡ err Tables.durable_store_error
  unfolding DurableStore.mark_operation_submitted
  submit_absent call owner ttl now s e = rw (e, DurableStore.mark_operation_submitted)

  submit_with_effect :
      (o : Option Lease) (s s' : Database Args Receipt) (op : Tables.StoredOperation Args Receipt)
      (now : ℕ)
      → is_ok (DurableStore.submit_with (o, s') op now) ≡ true
      → IsPast (row_at op.operation_key (settled_lease (DurableStore.submit_with (o, s') op now) s))
  unfolding DurableStore.submit_with submittable
  submit_with_effect none s s' op now h = cc
  submit_with_effect (some lease) s s' op now h =
      subst IsPast
        (sym (
          Dict.lookup-insert_self op.operation_key
            (record op.row { status = submitted; updated_at = now }) s'.operations))
        refl

  submit_ready :
      (call owner : String) (ttl now : ℕ) (s : Database Args Receipt)
      (op : Tables.StoredOperation Args Receipt)
      → operation_for_call call s ≡ some op
      → is_ok (DurableStore.mark_operation_submitted call owner ttl now s) ≡ true
      → (submittable op.status ≡ true)
        × IsPast (
            row_at op.operation_key
              (settled_lease (DurableStore.mark_operation_submitted call owner ttl now s) s))
  submit_ready call owner ttl now s op e h =
      let resource = Tables.lease_of op.operation_key in
      let (o, s') = Tables.acquire_lease resource owner ttl now s in
      let result = DurableStore.submit_with (o, s') op now in
      let eq = submit_found call owner ttl now s op e in
      elim (Bool-cases (submittable op.status)) [
        | inl ready ↦
            let eq' : DurableStore.mark_operation_submitted call owner ttl now s ≡ result =
              eq ∙ ap (λ b. if b then result else err Tables.durable_store_error) ready in
            (
              ready,
              subst (λ r. IsPast (row_at op.operation_key (settled_lease r s))) (sym eq')
                  (submit_with_effect o s s' op now (subst (λ r. is_ok r ≡ true) eq' h)),
            )
        | inr late ↦
            let eq' : DurableStore.mark_operation_submitted call owner ttl now s
                ≡ err Tables.durable_store_error =
              eq ∙ ap (λ b. if b then result else err Tables.durable_store_error) late in
            let no_ok : false ≡ true = subst (λ r. is_ok r ≡ true) eq' h in cc
      ]

  submit_effect :
      (key call owner : String) (ttl now : ℕ) (s : Database Args Receipt)
      → submits key (submit call owner ttl now) s ≡ true
      → (IsPast (row_at key s) → ⊥)
        × IsPast (
            row_at key
              (settled_lease (DurableStore.mark_operation_submitted call owner ttl now s) s))
  submit_effect key call owner ttl now s h =
      let submitted_ok : (is_ok (DurableStore.mark_operation_submitted call owner ttl now s) ≡ true)
          × (is_key key (operation_for_call call s) ≡ true) =
        and-eq_true h in
      elim (Option-cases (operation_for_call call s)) [
        | inl e ↦
            let no_key : false ≡ true = subst (λ o. is_key key o ≡ true) e submitted_ok.1 in cc
        | inr (op, e) ↦
            let same : op.operation_key ≡ key =
              (eq_iff op.operation_key key).0 (subst (λ o. is_key key o ≡ true) e submitted_ok.1) in
            let (ready, past) = submit_ready call owner ttl now s op e submitted_ok.0 in
            let was : row_at key s ≡ some op.row =
              subst (λ k. row_at k s ≡ some op.row) same (found_at call s op e) in
            (
              λ p. let late : submittable op.status ≡ false = subst IsPast was p in cc,
              subst
                  (λ k. IsPast (
                    row_at k (
                      settled_lease (DurableStore.mark_operation_submitted call owner ttl now s)
                        s)))
                  same past,
            )
      ]

  -- The operation is committed with this receipt.
  abbrev pub IsCommittedWith : Option Receipt → Option (OperationRow Args Receipt) → Type 0
  IsCommittedWith receipt none = ⊥
  IsCommittedWith receipt (some row) =
      (is_committed row.status ≡ true) × (row.execution_receipt ≡ receipt)

  IsCommittedWith-Advances :
      (receipt : Option Receipt) (o o' : Option (OperationRow Args Receipt))
      → Advances o o'
      → IsCommittedWith receipt o
      → IsCommittedWith receipt o'
  IsCommittedWith-Advances receipt none o' a h = absurd h
  IsCommittedWith-Advances receipt (some old) none a h = absurd a
  IsCommittedWith-Advances receipt (some old) (some new) a h =
      let (kept, same) = a.settled_once h.0 in (kept, same ∙ h.1)

module _ {Args Receipt : Type 0} (sha256 : String → String) where
  -- How many calls of a run submit the operation of this key.
  unfoldable pub submissions : String → Database Args Receipt → List (StoreOp Args Receipt) → ℕ
  submissions key s [] = 0
  submissions key s (op ∷ ops) =
      (if submits key op s then 1 else 0) + submissions key (step sha256 op s) ops

  submits_effect :
      (key : String) (op : StoreOp Args Receipt) (s : Database Args Receipt)
      → submits key op s ≡ true
      → (IsPast (row_at key s) → ⊥) × IsPast (row_at key (step sha256 op s))
  unfolding step
  submits_effect key (submit call owner ttl now) s h = submit_effect key call owner ttl now s h
  submits_effect key (prepare _ _ _ _ _ _) s h = cc
  submits_effect key (validate _ _) s h = cc
  submits_effect key (commit _ _ _ _ _ _) s h = cc
  submits_effect key (lose _ _ _) s h = cc
  submits_effect key (fail _ _ _) s h = cc
  submits_effect key (recover _ _) s h = cc
  submits_effect key (acquire _ _ _ _) s h = cc
  submits_effect key (release _ _ _) s h = cc

  IsPast-submissions :
      (key : String) (s : Database Args Receipt) (ops : List (StoreOp Args Receipt))
      → IsPast (row_at key s)
      → submissions key s ops ≡ 0
  unfolding submissions
  IsPast-submissions key s [] p = refl
  IsPast-submissions key s (op ∷ ops) p =
      let p' : IsPast (row_at key (step sha256 op s)) =
        IsPast-Advances (row_at key s) (row_at key (step sha256 op s)) (Fine-step sha256 key op s)
          p in
      elim (Bool-cases (submits key op s)) [
        | inl yes' ↦ absurd ((submits_effect key op s yes').0 p)
        | inr no' ↦ rw no' (omega (arith, IsPast-submissions key (step sha256 op s) ops p'))
      ]

  -- In any sequence of calls by any workers, with restarts, lost acknowledgements and lease
  -- takeovers among them, at most one call submits a given logical operation: the durable ledger
  -- allows its external effect to be started at most once.
  pub submissions-le-one :
      (key : String) (s : Database Args Receipt) (ops : List (StoreOp Args Receipt))
      → submissions key s ops ≤ 1
  unfolding submissions
  submissions-le-one key s [] = omega arith
  submissions-le-one key s (op ∷ ops) = elim (Bool-cases (submits key op s)) [
    | inl yes' ↦ rw yes' (
        omega
          (arith, IsPast-submissions key (step sha256 op s) ops (submits_effect key op s yes').1))
    | inr no' ↦ rw no' (omega (arith, submissions-le-one key (step sha256 op s) ops))
  ]

  -- A committed operation keeps its state and its receipt through every sequence of calls.
  pub run-IsCommittedWith :
      (key : String) (receipt : Option Receipt) (s : Database Args Receipt)
      (ops : List (StoreOp Args Receipt))
      → IsCommittedWith receipt (row_at key s)
      → IsCommittedWith receipt (row_at key (run sha256 s ops))
  unfolding run
  run-IsCommittedWith key receipt s [] h = h
  run-IsCommittedWith key receipt s (op ∷ ops) h =
      run-IsCommittedWith key receipt (step sha256 op s) ops (
        IsCommittedWith-Advances receipt (row_at key s) (row_at key (step sha256 op s))
          (Fine-step sha256 key op s) h)
