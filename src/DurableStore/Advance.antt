-- ===== src/DurableStore/Advance.antt =====
-- What no call on the durable operations undoes, row by row.
use mathlib.Core.Path.{subst}
use durallm.Common.{
  ◌≡◌, refl, sym, inl, inr, true, false, Option, none, some, String, ◌==◌, string_eq, eq_iff, arith,
  Bool-cases, Option-cases,
}
use durallm.Common.Dict
use durallm.Common.Dict.{Dict}
use durallm.DurableStore.Tables
use durallm.DurableStore.Tables.{
  Result, ok, err, Database, Lease, OperationRow, submittable, is_committed, is_submitted,
  operation_for_call, joined,
}

module _ {Args Receipt : Type 0} where
  abbrev pub row_at : String → Database Args Receipt → Option (OperationRow Args Receipt)
  row_at key s = Dict.lookup key s.operations

  -- What no call undoes: a state past the submittable ones, and a commit with its receipt.
  pub record Keeps (old new : OperationRow Args Receipt) : Type 0 where
    pub dispatched : submittable old.status ≡ false → submittable new.status ≡ false
    pub settled_once :
        is_committed old.status ≡ true
        → (is_committed new.status ≡ true) × (new.execution_receipt ≡ old.execution_receipt)

  -- The row of a key after a call.
  abbrev pub Advances :
      Option (OperationRow Args Receipt) → Option (OperationRow Args Receipt) → Type 0
  Advances none new = Unit
  Advances (some old) none = ⊥
  Advances (some old) (some new) = Keeps old new

  pub Advances-refl : (o : Option (OperationRow Args Receipt)) → Advances o o
  Advances-refl none = tt
  Advances-refl (some row) = record { dispatched = λ h. h; settled_once = λ h. (h, refl) }

  pub Advances-insert :
      (key k : String) (new : OperationRow Args Receipt)
      (rows : Dict String (OperationRow Args Receipt))
      → Advances (Dict.lookup key rows) (some new)
      → Advances (Dict.lookup k rows) (Dict.lookup k (Dict.insert key new rows))
  Advances-insert key k new rows h = elim (Bool-cases (key == k)) [
    | inl same ↦
        rw Dict.lookup-insert (
          rw same (subst (λ j. Advances (Dict.lookup j rows) (some new)) ((eq_iff key k).0 same) h))
    | inr other ↦ rw Dict.lookup-insert (rw other (Advances-refl (Dict.lookup k rows)))
  ]

  pub joined_found :
      (o : Option String) (rows : Dict String (OperationRow Args Receipt))
      (op : Tables.StoredOperation Args Receipt)
      → joined o rows ≡ some op
      → Dict.lookup op.operation_key rows ≡ some op.row
  unfolding joined
  joined_found none rows op h = cc
  joined_found (some key) rows op h = elim (Option-cases (Dict.lookup key rows)) [
    | inl absent ↦ ground arith
    | inr (row, present) ↦ ground arith
  ]

  -- What `operation_for_call` finds is the row of its key.
  pub found_at :
      (call : String) (s : Database Args Receipt) (op : Tables.StoredOperation Args Receipt)
      → operation_for_call call s ≡ some op
      → row_at op.operation_key s ≡ some op.row
  unfolding operation_for_call
  found_at call s op h = joined_found (Dict.lookup call s.calls) s.operations op h

  -- A write of the row that a call was found to have.
  pub Advances-found :
      (k call : String) (s : Database Args Receipt) (op : Tables.StoredOperation Args Receipt)
      (new : OperationRow Args Receipt)
      → operation_for_call call s ≡ some op
      → Keeps op.row new
      → Advances (row_at k s) (Dict.lookup k (Dict.insert op.operation_key new s.operations))
  Advances-found k call s op new h keeps =
      Advances-insert op.operation_key k new s.operations
        (subst (λ o. Advances o (some new)) (sym (found_at call s op h)) keeps)
