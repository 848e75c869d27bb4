-- ===== src/DurableStore.antt =====
-- durallm/storage/sqlite.py: the durable operations and their leases. A table is a dictionary by its
-- primary key, and a statement is its effect on the tables. `_write_transaction` rolls back when a
-- method raises, so an error carries no new tables. JSON columns hold the values that they encode, and
-- `sha256` is the hash of `hashlib`, a parameter. Times are in milliseconds.
pub mod Tables
pub mod Calls
pub mod Advance
mod Steps
pub mod Once
mod Tokens
pub mod Leases
use Prim.Native.String.{◌++◌}
use durallm.Common.{
  ℕ, ◌+◌, Bool, true, false, not, ◌&&◌, ◌||◌, Option, none, some, String, List, [], ◌∷◌, leb, max,
  if◌then◌else◌, ◌==◌, string_eq, nat_eq,
}
use durallm.Common.Dict
use durallm.Common.Dict.{Dict}
use durallm.ToolLedger.{
  ToolExecutionStatus, proposed, validated, submitted, committed, indeterminate, ambiguous, failed,
  replayed,
}
use durallm.DurableStore.Tables.{
  StoreError, durable_store_error, lease_unavailable, Result, ok, err, OperationRow,
  StoredOperation, LeaseRow, Lease, Database, operation_key, lease_of, submittable, is_proposed,
  is_submitted, is_committed, is_indeterminate, is_live, set_row, operation_for_call, acquire_lease,
  delete_lease, insert_or_ignore, bound_elsewhere,
}

module _ {Args Receipt : Type 0} where
  unfoldable pub mark_operation_validated :
      String → ℕ → Database Args Receipt → Result (Database Args Receipt)
  unfolding operation_for_call is_proposed
  mark_operation_validated tool_call_id now s = elim (operation_for_call tool_call_id s) [
    | none ↦ err durable_store_error
    | some op ↦ ok (
        if is_proposed op.status
        then set_row op.operation_key (record op.row { status = validated; updated_at = now }) s
        else s)
  ]

  submit_with :
      Option Lease × Database Args Receipt
      → StoredOperation Args Receipt
      → ℕ
      → Result (Lease × Database Args Receipt)
  submit_with (none, s) op now = err lease_unavailable
  submit_with (some lease, s) op now =
      ok
        (lease, set_row op.operation_key (record op.row { status = submitted; updated_at = now }) s)

  unfoldable pub mark_operation_submitted :
      String → String → ℕ → ℕ → Database Args Receipt → Result (Lease × Database Args Receipt)
  unfolding operation_for_call submittable submit_with acquire_lease
  mark_operation_submitted tool_call_id owner ttl now s = elim (operation_for_call tool_call_id s) [
    | none ↦ err durable_store_error
    | some op ↦
        if submittable op.status
        then submit_with (acquire_lease (lease_of op.operation_key) owner ttl now s) op now
        else err durable_store_error
  ]

  -- `now` is the time of the lease test and `stamp` that of the update.
  unfoldable pub mark_operation_committed :
      String → String → ℕ → Receipt → ℕ → ℕ → Database Args Receipt → Result (Database Args Receipt)
  unfolding operation_for_call is_live is_submitted delete_lease
  mark_operation_committed tool_call_id owner token receipt now stamp s =
      elim (operation_for_call tool_call_id s) [
        | none ↦ err durable_store_error
        | some op ↦
            let resource = lease_of op.operation_key in
            if not (is_live (Dict.lookup resource s.leases) owner token now)
            then err lease_unavailable
            else if not (is_submitted op.status)
            then err durable_store_error
            else ok (
                delete_lease resource owner token (
                  set_row op.operation_key
                    (record op.row {
                      status = committed;
                      execution_receipt = some receipt;
                      error_message = none;
                      updated_at = stamp;
                    })
                    s))
      ]

  unfoldable pub mark_operation_indeterminate :
      String → String → ℕ → Database Args Receipt → Result (Database Args Receipt)
  unfolding operation_for_call is_committed
  mark_operation_indeterminate tool_call_id reason now s =
      elim (operation_for_call tool_call_id s) [
        | none ↦ err durable_store_error
        | some op ↦
            let row = record op.row {
              status = indeterminate;
              error_message = some reason;
              updated_at = now;
            } in
            ok (
              if is_committed op.status then s else record s {
                operations = Dict.insert op.operation_key row s.operations;
                leases = Dict.remove (lease_of op.operation_key) s.leases;
              })
      ]

  unfoldable pub mark_operation_failed :
      String → String → ℕ → Database Args Receipt → Result (Database Args Receipt)
  unfolding operation_for_call is_committed is_submitted
  mark_operation_failed tool_call_id reason now s = elim (operation_for_call tool_call_id s) [
    | none ↦ err durable_store_error
    | some op ↦
        let row = record op.row {
          status = failed;
          error_message = some reason;
          updated_at = now;
        } in
        ok (
          if is_committed op.status || is_submitted op.status
          then s
          else set_row op.operation_key row s)
  ]

  -- `UPDATE … WHERE status = 'submitted'` on one row
  recovered : String → ℕ → OperationRow Args Receipt → OperationRow Args Receipt
  unfolding is_submitted
  recovered reason now row =
      if is_submitted row.status
      then record row { status = indeterminate; error_message = some reason; updated_at = now }
      else row

  recover_rows :
      String → ℕ → Dict String (OperationRow Args Receipt) → Dict String (OperationRow Args Receipt)
  unfolding recovered
  recover_rows reason now [] = []
  recover_rows reason now ((key, row) ∷ rows) =
      (key, recovered reason now row) ∷ recover_rows reason now rows

  -- `DELETE FROM durable_leases WHERE resource IN (… status = 'indeterminate')`
  drop_leases :
      Dict String (OperationRow Args Receipt) → Dict String LeaseRow → Dict String LeaseRow
  unfolding is_indeterminate
  drop_leases [] leases = leases
  drop_leases ((key, row) ∷ rows) leases =
      drop_leases rows
        (if is_indeterminate row.status then Dict.remove (lease_of key) leases else leases)

  unfoldable pub recover_inflight_operations :
      String → ℕ → Database Args Receipt → Database Args Receipt
  unfolding recover_rows drop_leases
  recover_inflight_operations reason now s =
      let rows = recover_rows reason now s.operations in
      record s { operations = rows; leases = drop_leases rows s.leases }

  -- The row that `prepare_operation` inserts.
  abbrev new_row : String → String → String → Args → ℕ → OperationRow Args Receipt
  new_row logical_operation_id tool_name arguments_hash arguments now = record {
    logical_operation_id = logical_operation_id;
    tool_name = tool_name;
    arguments_hash = arguments_hash;
    arguments = arguments;
    status = proposed;
    execution_receipt = none;
    error_message = none;
    created_at = now;
    updated_at = now;
  }

  module _ (sha256 : String → String) where
    unfoldable pub prepare_operation :
        String
        → String
        → String
        → String
        → Args
        → ℕ
        → Database Args Receipt
        → Result (Database Args Receipt)
    unfolding insert_or_ignore bound_elsewhere
    prepare_operation tool_call_id logical_operation_id tool_name arguments_hash arguments now s =
        let key = operation_key sha256 logical_operation_id tool_name arguments_hash in
        if bound_elsewhere (Dict.lookup tool_call_id s.calls) key
        then err durable_store_error
        else ok (record s {
          operations =
              insert_or_ignore key
                (new_row logical_operation_id tool_name arguments_hash arguments now) s.operations;
          calls = insert_or_ignore tool_call_id key s.calls;
        })
