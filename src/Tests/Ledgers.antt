-- ===== src/Tests/Ledgers.antt =====
-- A payment that is registered, submitted and committed, in memory and in the database.
use durallm.Common.{
  ℕ, ◌+◌, ◌≤◌, ◌≡◌, refl, true, false, none, some, String, List, [], ◌∷◌, arith, max, string_eq,
  leb, if◌then◌else◌,
}
use durallm.Common.Dict
use durallm.ToolLedger
use durallm.ToolLedger.{
  ToolExecutionLedger, ToolExecutionRecord, proposed, submitted, committed, expired, get_record,
  record_key, receipt_at, op_key, has_indeterminate_operation,
}
use durallm.ToolLedger.Occurs.{Occurs}
use durallm.ToolLedger.Calls.{LedgerOp, register, validate, submit, commit, new_ledger, commits}
use durallm.ToolLedger.Calls
use durallm.ToolLedger.Receipts.{check_idempotency_sound}
use durallm.ToolLedger.Lifecycle.{indeterminate_blocks}
use durallm.ToolLedger.Persistence.{receipt_at-mark_committed}
use durallm.DurableStore
use durallm.DurableStore.Tables
use durallm.DurableStore.Tables.{
  OperationRow, StoredOperation, LeaseRow, Database, err, lease_unavailable, acquire_lease,
  lease_of,
}
use durallm.DurableStore.Calls as Store
use durallm.DurableStore.Advance.{row_at}
use durallm.DurableStore.Once.{
  submissions, submissions-le-one, IsCommittedWith, run-IsCommittedWith,
}
use durallm.DurableStore.Leases.{acquire_lease-fences}

-- A stand-in for the hash of the arguments.
abbrev digest : ℕ → String
digest arguments = if leb arguments 0 then "zero" else "more"

abbrev sha256 : String → String
sha256 text = text

abbrev calls : List (LedgerOp ℕ String)
calls = register "c1" "op" "pay" 5 10 10 ∷ submit "c1" 11 ∷ commit "c1" "paid" 12 12 12 ∷ []

abbrev empty : ToolExecutionLedger ℕ String
empty = new_ledger ℕ String 10 (some 100)

paid_again :
    ToolLedger.check_idempotency digest "op" "pay" 7 50 (Calls.run digest empty calls) ≡ some "paid"
unfolding ToolLedger.check_idempotency receipt_at Calls.run Calls.step ToolLedger.register_tool_call
    ToolLedger.mark_submitted ToolLedger.mark_committed ToolLedger.evict op_key Dict.lookup
    Dict.insert ToolLedger.evict_store ToolLedger.evict_expired
paid_again = refl

check_idempotency_sound_example :
    (stamp : ℕ) × Occurs (op_key "op" "pay" (digest 7)) ("paid", stamp) (commits digest empty calls)
    × (expired (some 100) 50 stamp ≡ false)
check_idempotency_sound_example =
    check_idempotency_sound digest 10 (some 100) calls "op" "pay" 7 50 "paid" paid_again

abbrev payment : ToolExecutionRecord ℕ String
payment = record {
  tool_call_id = "c1";
  logical_operation_id = "op";
  tool_name = "pay";
  arguments_hash = "more";
  arguments = 5;
  status = proposed;
  execution_receipt = none;
  created_at = 10;
  updated_at = 10;
  error_message = none;
}

abbrev registered : ToolExecutionLedger ℕ String
registered = record empty { records_by_call_id = ("c1", payment) ∷ [] }

receipt_at-mark_committed_example :
    receipt_at (record_key payment) 90 (
      Calls.run digest
        (ToolLedger.mark_committed "c1" "paid" 12 12 12 registered)
        (register "c2" "op2" "pay" 5 20 20 ∷ submit "c2" 21 ∷ []))
    ≡ some "paid"
unfolding Dict.lookup
receipt_at-mark_committed_example =
    receipt_at-mark_committed digest "c1" "paid" 12 12 12 90 registered payment
      (register "c2" "op2" "pay" 5 20 20 ∷ submit "c2" 21 ∷ []) refl (omega arith) (omega arith)
      refl refl (omega arith, (tt, tt))

indeterminate_blocks_example :
    (has_indeterminate_operation digest "op" "pay" 8
        (Calls.run digest (ToolLedger.mark_submitted "c1" 11 registered) (validate "c2" 12 ∷ []))
      ≡ true)
    × (has_indeterminate_operation digest "op" "pay" 8 (
          Calls.run digest
            (ToolLedger.mark_indeterminate "c1" "lost" 11 registered)
            (validate "c2" 12 ∷ []))
        ≡ true)
unfolding Dict.lookup
indeterminate_blocks_example =
    indeterminate_blocks digest "c1" "lost" 11 payment registered 8 (validate "c2" 12 ∷ []) refl
      refl (refl, tt)

abbrev row : OperationRow ℕ String
row = record {
  logical_operation_id = "op";
  tool_name = "pay";
  arguments_hash = "more";
  arguments = 5;
  status = proposed;
  execution_receipt = none;
  error_message = none;
  created_at = 10;
  updated_at = 10;
}

abbrev database : Database ℕ String
database = record { operations = ("k", row) ∷ []; calls = ("c1", "k") ∷ []; leases = [] }

-- Two workers submit the payment, the first loses its acknowledgement.
abbrev workers : List (Store.StoreOp ℕ String)
workers =
    Store.submit "c1" "one" 30 10 ∷ Store.recover "restart" 20 ∷ Store.submit "c1" "two" 30 50 ∷ []

submitted_once : submissions sha256 "k" database workers ≡ 1
unfolding submissions Store.step DurableStore.mark_operation_submitted acquire_lease
    Tables.lease_row Tables.store_lease Tables.operation_for_call Tables.joined Tables.found_row
    Tables.submittable DurableStore.recover_inflight_operations Dict.lookup Dict.insert
submitted_once = refl

submissions-le-one_example : submissions sha256 "k" database workers ≤ 1
submissions-le-one_example = submissions-le-one sha256 "k" database workers

abbrev settled : Database ℕ String
settled = record database {
  operations = ("k", record row { status = committed; execution_receipt = some "paid" }) ∷ [];
}

run-IsCommittedWith_example :
    IsCommittedWith (some "paid") (row_at "k" (Store.run sha256 settled workers))
unfolding Dict.lookup Tables.is_committed
run-IsCommittedWith_example =
    run-IsCommittedWith sha256 "k" (some "paid") settled workers (refl, refl)

abbrev held : LeaseRow
held = record { owner_id = "one"; fencing_token = 4; expires_at = 40 }

abbrev leased : Database ℕ String
leased = record database { leases = ("operation:k", held) ∷ [] }

abbrev found : StoredOperation ℕ String
found = record { operation_key = "k"; row = row }

-- Worker two takes the lease over, renews it, and lets it expire; then worker one has it again.
abbrev handovers : List (Store.StoreOp ℕ String)
handovers = Store.acquire "operation:k" "two" 30 50 ∷ Store.acquire "operation:k" "one" 30 90 ∷ []

abbrev handed : Database ℕ String
handed = Store.run sha256 (acquire_lease "operation:k" "two" 30 40 leased).1 handovers

acquire_lease-fences_example :
    ((acquire_lease "operation:k" "two" 30 40 leased).0
      ≡ some (record {
        resource = "operation:k";
        owner_id = "two";
        fencing_token = 4 + 1;
        expires_at = 40 + max 1 30;
      }))
    × ((receipt : String) (later stamp : ℕ)
        → DurableStore.mark_operation_committed "c1" "one" 4 receipt later stamp handed
          ≡ err lease_unavailable)
unfolding Tables.operation_for_call Tables.joined Tables.found_row Dict.lookup Dict.insert Store.run
    Store.step acquire_lease Tables.lease_row Tables.store_lease
acquire_lease-fences_example =
    acquire_lease-fences sha256 "operation:k" "c1" "one" "two" "k" 30 40 held leased handovers found
      refl refl refl (omega arith) (tt, (tt, tt)) refl refl
