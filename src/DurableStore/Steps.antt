-- ===== src/DurableStore/Steps.antt =====
-- Every call on the durable operations keeps what `Advances` says of each row.
use mathlib.Core.Path.{subst}
use durallm.Common.{
  ℕ, ◌+◌, ◌≡◌, sym, max, ◌||◌, if_split, if_both, inl, inr, true, Option, none, some, String, [],
  ◌∷◌, if◌then◌else◌, ◌==◌, string_eq, arith, Bool-cases, Option-cases, not,
}
use durallm.Common.Dict
use durallm.Common.Dict.{Dict}
use durallm.ToolLedger.{submitted, committed}
use durallm.DurableStore
use durallm.DurableStore.Tables
use durallm.DurableStore.Tables.{
  Result, ok, err, Database, Lease, OperationRow, submittable, is_committed, is_submitted,
  operation_for_call, joined,
}
use durallm.DurableStore.Calls.{
  StoreOp, prepare, validate, submit, commit, lose, fail, recover, acquire, release, settled,
  settled_lease, step,
}
use durallm.DurableStore.Advance.{
  row_at, Keeps, Advances, Advances-refl, Advances-insert, found_at, Advances-found,
}

module _ {Args Receipt : Type 0} where
  -- The rule for each method below: what its result does to the row of `k`.
  abbrev Fine : String → Database Args Receipt → Result (Database Args Receipt) → Type 0
  Fine k s r = Advances (row_at k s) (row_at k (settled r s))

  Fine-validate :
      (k call : String) (now : ℕ) (s : Database Args Receipt)
      → Fine k s (DurableStore.mark_operation_validated call now s)
  unfolding DurableStore.mark_operation_validated submittable is_committed
  Fine-validate k call now s = elim (Option-cases (operation_for_call call s)) [
    | inl e ↦ rw (e, DurableStore.mark_operation_validated) (Advances-refl (row_at k s))
    | inr (op, e) ↦
        rw (e, DurableStore.mark_operation_validated)
          (if_split (λ s'. Advances (row_at k s) (row_at k s')) (Tables.is_proposed op.status)
            (λ p. Advances-found k call s op _ e (ground arith)) (λ p. Advances-refl (row_at k s)))
  ]

  Fine-lose :
      (k call reason : String) (now : ℕ) (s : Database Args Receipt)
      → Fine k s (DurableStore.mark_operation_indeterminate call reason now s)
  unfolding DurableStore.mark_operation_indeterminate submittable is_committed
  Fine-lose k call reason now s = elim (Option-cases (operation_for_call call s)) [
    | inl e ↦ rw (e, DurableStore.mark_operation_indeterminate) (Advances-refl (row_at k s))
    | inr (op, e) ↦
        rw (e, DurableStore.mark_operation_indeterminate)
          (if_split (λ s'. Advances (row_at k s) (row_at k s')) (is_committed op.status)
            (λ p. Advances-refl (row_at k s)) (λ p. Advances-found k call s op _ e (ground arith)))
  ]

  Fine-fail :
      (k call reason : String) (now : ℕ) (s : Database Args Receipt)
      → Fine k s (DurableStore.mark_operation_failed call reason now s)
  unfolding DurableStore.mark_operation_failed submittable is_committed
  Fine-fail k call reason now s = elim (Option-cases (operation_for_call call s)) [
    | inl e ↦ rw (e, DurableStore.mark_operation_failed) (Advances-refl (row_at k s))
    | inr (op, e) ↦
        rw (e, DurableStore.mark_operation_failed)
          (if_split (λ s'. Advances (row_at k s) (row_at k s'))
            (is_committed op.status || is_submitted op.status) (λ p. Advances-refl (row_at k s))
            (λ p. Advances-found k call s op _ e (ground arith)))
  ]

  operations-delete :
      (resource owner : String) (token : ℕ) (s : Database Args Receipt)
      → (Tables.delete_lease resource owner token s).operations ≡ s.operations
  unfolding Tables.delete_lease
  operations-delete resource owner token s = ground arith

  Fine-commit :
      (k call owner : String) (token : ℕ) (receipt : Receipt) (now stamp : ℕ)
      (s : Database Args Receipt)
      → Fine k s (DurableStore.mark_operation_committed call owner token receipt now stamp s)
  unfolding DurableStore.mark_operation_committed submittable is_committed is_submitted
  Fine-commit k call owner token receipt now stamp s =
      elim (Option-cases (operation_for_call call s)) [
        | inl e ↦ rw (e, DurableStore.mark_operation_committed) (Advances-refl (row_at k s))
        | inr (op, e) ↦
            let resource = Tables.lease_of op.operation_key in
            let row : OperationRow Args Receipt = record op.row {
              status = committed;
              execution_receipt = some receipt;
              error_message = none;
              updated_at = stamp;
            } in
            let written : Database Args Receipt = Tables.set_row op.operation_key row s in
            let done : Result (Database Args Receipt) =
              ok (Tables.delete_lease resource owner token written) in
            rw (e, DurableStore.mark_operation_committed)
              (if_split (Fine k s)
                (not (Tables.is_live (Dict.lookup resource s.leases) owner token now))
                {a = err Tables.lease_unavailable}
                {b = if not (is_submitted op.status) then err Tables.durable_store_error else done}
                (λ p. Advances-refl (row_at k s))
                (λ p.
                  if_split (Fine k s) (not (is_submitted op.status))
                    {a = err Tables.durable_store_error} {b = done}
                    (λ q. Advances-refl (row_at k s))
                    (λ q.
                      subst (λ rows. Advances (row_at k s) (Dict.lookup k rows))
                        (sym (operations-delete resource owner token written))
                        (Advances-found k call s op row e (ground arith)))))
      ]

  operations-store_lease :
      (o : Option Tables.LeaseRow) (resource : String) (s : Database Args Receipt)
      → (Tables.store_lease o resource s).1.operations ≡ s.operations
  unfolding Tables.store_lease
  operations-store_lease o resource s = ground arith

  abbrev FineLease :
      String → Database Args Receipt → Result (Lease × Database Args Receipt) → Type 0
  FineLease k s r = Advances (row_at k s) (row_at k (settled_lease r s))

  Fine-submit_with :
      (k : String) (s s' : Database Args Receipt) (o : Option Lease)
      (op : Tables.StoredOperation Args Receipt) (now : ℕ)
      → s'.operations ≡ s.operations
      → row_at op.operation_key s ≡ some op.row
      → submittable op.status ≡ true
      → FineLease k s (DurableStore.submit_with (o, s') op now)
  unfolding DurableStore.submit_with submittable is_committed
  Fine-submit_with k s s' none op now same found ready = Advances-refl (row_at k s)
  Fine-submit_with k s s' (some lease) op now same found ready =
      let row : OperationRow Args Receipt = record op.row {
        status = submitted;
        updated_at = now;
      } in
      subst (λ rows. Advances (row_at k s) (Dict.lookup k (Dict.insert op.operation_key row rows)))
        (sym same)
        (Advances-insert op.operation_key k row s.operations
          (subst (λ o. Advances o (some row)) (sym found) (ground arith)))

  Fine-submit :
      (k call owner : String) (ttl now : ℕ) (s : Database Args Receipt)
      → FineLease k s (DurableStore.mark_operation_submitted call owner ttl now s)
  unfolding DurableStore.mark_operation_submitted Tables.acquire_lease
  Fine-submit k call owner ttl now s = elim (Option-cases (operation_for_call call s)) [
    | inl e ↦ rw (e, DurableStore.mark_operation_submitted) (Advances-refl (row_at k s))
    | inr (op, e) ↦
        let resource = Tables.lease_of op.operation_key in
        let got : Option Tables.LeaseRow =
          Tables.lease_row (Dict.lookup resource s.leases) owner (now + max 1 ttl) now in
        let (o, s') = Tables.store_lease got resource s in
        rw (e, DurableStore.mark_operation_submitted)
          (if_split (FineLease k s) (submittable op.status)
            {a = DurableStore.submit_with (o, s') op now} {b = err Tables.durable_store_error}
            (λ ready.
              Fine-submit_with k s s' o op now (operations-store_lease got resource s)
                (found_at call s op e) ready)
            (λ p. Advances-refl (row_at k s)))
  ]

  Advances-recover :
      (k reason : String) (now : ℕ) (rows : Dict String (OperationRow Args Receipt))
      → Advances (Dict.lookup k rows) (Dict.lookup k (DurableStore.recover_rows reason now rows))
  unfolding DurableStore.recover_rows Dict.lookup submittable is_committed
  Advances-recover k reason now [] = tt
  Advances-recover k reason now ((key, row) ∷ rows) = elim (Bool-cases (key == k)) [
    | inl same ↦ rw same (recovered_keeps row)
    | inr other ↦ rw other (Advances-recover k reason now rows)
  ]
    where
      recovered_keeps :
          (row : OperationRow Args Receipt) → Keeps row (DurableStore.recovered reason now row)
      recovered_keeps row = ground arith

  Advances-ignore :
      (key k : String) (new : OperationRow Args Receipt)
      (rows : Dict String (OperationRow Args Receipt))
      → Advances (Dict.lookup k rows) (Dict.lookup k (Tables.insert_or_ignore key new rows))
  unfolding Tables.insert_or_ignore
  Advances-ignore key k new rows = elim (Option-cases (Dict.lookup key rows)) [
    | inl absent ↦
        rw (absent, Tables.insert_or_ignore)
          (Advances-insert key k new rows (subst (λ o. Advances o (some new)) (sym absent) tt))
    | inr (row, present) ↦
        rw (present, Tables.insert_or_ignore) (Advances-refl (Dict.lookup k rows))
  ]

  Fine-prepare :
      (sha256 : String → String) (k call op tool hash : String) (args : Args) (now : ℕ)
      (s : Database Args Receipt)
      → Fine k s (DurableStore.prepare_operation sha256 call op tool hash args now s)
  unfolding DurableStore.prepare_operation
  Fine-prepare sha256 k call op tool hash args now s =
      let key = Tables.operation_key sha256 op tool hash in
      if_both (Fine k s) (Tables.bound_elsewhere (Dict.lookup call s.calls) key)
        {a = err Tables.durable_store_error}
        {b = ok (record s {
          operations =
              Tables.insert_or_ignore key (DurableStore.new_row op tool hash args now) s.operations;
          calls = Tables.insert_or_ignore call key s.calls;
        })}
        (Advances-refl (row_at k s))
        (Advances-ignore key k (DurableStore.new_row op tool hash args now) s.operations)

  pub Fine-step :
      (sha256 : String → String) (k : String) (op : StoreOp Args Receipt)
      (s : Database Args Receipt)
      → Advances (row_at k s) (row_at k (step sha256 op s))
  unfolding step DurableStore.recover_inflight_operations Tables.acquire_lease Tables.release_lease
  Fine-step sha256 k (prepare call op tool hash args now) s =
      Fine-prepare sha256 k call op tool hash args now s
  Fine-step sha256 k (validate call now) s = Fine-validate k call now s
  Fine-step sha256 k (submit call owner ttl now) s = Fine-submit k call owner ttl now s
  Fine-step sha256 k (commit call owner token receipt now stamp) s =
      Fine-commit k call owner token receipt now stamp s
  Fine-step sha256 k (lose call reason now) s = Fine-lose k call reason now s
  Fine-step sha256 k (fail call reason now) s = Fine-fail k call reason now s
  Fine-step sha256 k (recover reason now) s = Advances-recover k reason now s.operations
  Fine-step sha256 k (acquire resource owner ttl now) s =
      let got = Tables.lease_row (Dict.lookup resource s.leases) owner (now + max 1 ttl) now in
      subst (λ rows. Advances (row_at k s) (Dict.lookup k rows))
        (sym (operations-store_lease got resource s)) (Advances-refl (row_at k s))
  Fine-step sha256 k (release resource owner token) s =
      subst (λ rows. Advances (row_at k s) (Dict.lookup k rows))
        (sym (operations-delete resource owner token s)) (Advances-refl (row_at k s))
