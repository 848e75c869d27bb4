-- ===== src/ToolLedger/Calls.antt =====
-- One call of a method of the ledger, and a sequence of calls.
use durallm.Common.{ℕ, Option, none, some, String, List, [], ◌∷◌, ◌++◌, string_eq}
use durallm.ToolLedger
use durallm.ToolLedger.{ToolExecutionLedger, ToolExecutionRecord, get_record, record_key}

module _ (Args Receipt : Type 0) where
  -- Each call carries what its reads of the two clocks return.
  pub data LedgerOp : Type 0 where
    register : String → String → String → Args → ℕ → ℕ → LedgerOp
    validate : String → ℕ → LedgerOp
    submit : String → ℕ → LedgerOp
    commit : String → Receipt → ℕ → ℕ → ℕ → LedgerOp
    replay : String → Receipt → ℕ → LedgerOp
    lose : String → String → ℕ → LedgerOp
    fail : String → String → ℕ → LedgerOp

-- `ToolExecutionLedger.__init__`
abbrev pub new_ledger : (Args Receipt : Type 0) → ℕ → Option ℕ → ToolExecutionLedger Args Receipt
new_ledger Args Receipt max_records ttl = record {
  max_records = max_records;
  ttl = ttl;
  records_by_call_id = [];
  receipts_by_op_hash = [];
}

module _ {Args Receipt : Type 0} (digest : Args → String) where
  unfoldable pub step :
      LedgerOp Args Receipt → ToolExecutionLedger Args Receipt → ToolExecutionLedger Args Receipt
  step (register id op tool args now ev) l =
      (ToolLedger.register_tool_call digest id op tool args now ev l).1
  step (validate id wall) l = ToolLedger.mark_validated id wall l
  step (submit id wall) l = ToolLedger.mark_submitted id wall l
  step (commit id receipt wall now ev) l = ToolLedger.mark_committed id receipt wall now ev l
  step (replay id receipt now) l = ToolLedger.mark_replayed id receipt now l
  step (lose id reason wall) l = ToolLedger.mark_indeterminate id reason wall l
  step (fail id message wall) l = ToolLedger.mark_failed id message wall l

  unfoldable pub run :
      ToolExecutionLedger Args Receipt
      → List (LedgerOp Args Receipt)
      → ToolExecutionLedger Args Receipt
  run l [] = l
  run l (op ∷ ops) = run (step op l) ops

  -- The key, the receipt and the time of a commit of a registered call.
  abbrev pub commit_of :
      LedgerOp Args Receipt → ToolExecutionLedger Args Receipt → List (String × (Receipt × ℕ))
  commit_of (commit id receipt wall now ev) l = elim (get_record id l) [
    | none ↦ []
    | some rec ↦ (record_key rec, (receipt, now)) ∷ []
  ]
  commit_of _ l = []

  -- Those of all the commits of a run.
  abbrev pub commits :
      ToolExecutionLedger Args Receipt
      → List (LedgerOp Args Receipt)
      → List (String × (Receipt × ℕ))
  commits l [] = []
  commits l (op ∷ ops) = commit_of op l ++ commits (step op l) ops
