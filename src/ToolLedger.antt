-- ===== src/ToolLedger.antt =====
-- durallm/agent/idempotency.py: the tool execution ledger in memory. Arguments and receipts are
-- JSON objects that the ledger only stores, and `digest` is `compute_arguments_hash`, the SHA-256 of
-- their JSON text; both are parameters. Times are in milliseconds. A record is read from the ledger by
-- its id, so the object that a caller shares with the ledger is the ledger's entry.
mod Evict
pub mod Occurs
pub mod Calls
pub mod Receipts
pub mod Lifecycle
pub mod Persistence
use Prim.Native.String.{◌++◌}
use durallm.Common.{
  ℕ, ◌+◌, ◌-◌, Bool, true, false, ◌&&◌, Option, none, some, String, List, [], ◌∷◌, length, any,
  drop, ltb, if◌then◌else◌, ◌==◌, string_eq,
}
use durallm.Common.Dict
use durallm.Common.Dict.{Dict}

pub data ToolExecutionStatus : Type 0 where
  proposed validated submitted committed indeterminate ambiguous failed replayed :
      ToolExecutionStatus

pub record ToolExecutionRecord (Args Receipt : Type 0) : Type 0 where
  pub tool_call_id : String
  pub logical_operation_id : String
  pub tool_name : String
  pub arguments_hash : String
  pub arguments : Args
  pub status : ToolExecutionStatus
  pub execution_receipt : Option Receipt
  pub created_at : ℕ
  pub updated_at : ℕ
  pub error_message : Option String

-- `ttl_seconds` is `none` for `float("inf")`.
pub record ToolExecutionLedger (Args Receipt : Type 0) : Type 0 where
  pub max_records : ℕ
  pub ttl : Option ℕ
  pub records_by_call_id : Dict String (ToolExecutionRecord Args Receipt)
  pub receipts_by_op_hash : Dict String (Receipt × ℕ)

-- `now - stamp > ttl_seconds`
abbrev pub expired : Option ℕ → ℕ → ℕ → Bool
expired none now stamp = false
expired (some ttl) now stamp = ltb (stamp + ttl) now

-- The two loops of `_evict` over one store: `popitem(last=False)` takes the oldest entry.
unfoldable pub evict_expired : {V : Type 0} → (V → ℕ) → Option ℕ → ℕ → Dict String V → Dict String V
evict_expired stamp ttl now [] = []
evict_expired stamp ttl now ((k, v) ∷ d) =
    if expired ttl now (stamp v) then evict_expired stamp ttl now d else (k, v) ∷ d

abbrev pub evict_excess : {V : Type 0} → ℕ → Dict String V → Dict String V
evict_excess max_records d = drop (length d - max_records) d

unfoldable pub evict_store :
    {V : Type 0} → (V → ℕ) → Option ℕ → ℕ → ℕ → Dict String V → Dict String V
evict_store stamp ttl max_records now d = evict_excess max_records (evict_expired stamp ttl now d)

-- `_op_key`
unfoldable pub op_key : String → String → String → String
op_key logical_op_id tool_name arguments_hash =
    logical_op_id ++ ":" ++ tool_name ++ ":" ++ arguments_hash

abbrev pub stamped : {Receipt : Type 0} → Receipt × ℕ → ℕ
stamped entry = entry.1

is_proposed : ToolExecutionStatus → Bool
is_proposed proposed = true
is_proposed _ = false

is_indeterminate : ToolExecutionStatus → Bool
is_indeterminate submitted = true
is_indeterminate indeterminate = true
is_indeterminate ambiguous = true
is_indeterminate _ = false

-- A receipt that is not too old.
unfoldable pub fresh_receipt :
    {Receipt : Type 0} → Option ℕ → ℕ → Option (Receipt × ℕ) → Option Receipt
fresh_receipt ttl now none = none
fresh_receipt ttl now (some (receipt, stamp)) = if expired ttl now stamp then none else some receipt

module _ {Args Receipt : Type 0} where
  abbrev pub created : ToolExecutionRecord Args Receipt → ℕ
  created rec = rec.created_at

  unfoldable pub evict : ℕ → ToolExecutionLedger Args Receipt → ToolExecutionLedger Args Receipt
  evict now l = record l {
    records_by_call_id = evict_store created l.ttl l.max_records now l.records_by_call_id;
    receipts_by_op_hash = evict_store stamped l.ttl l.max_records now l.receipts_by_op_hash;
  }

  abbrev pub get_record :
      String → ToolExecutionLedger Args Receipt → Option (ToolExecutionRecord Args Receipt)
  get_record id l = Dict.lookup id l.records_by_call_id

  -- Assigns the fields of the record with this id, if there is one.
  unfoldable pub update_record :
      String
      → (ToolExecutionRecord Args Receipt → ToolExecutionRecord Args Receipt)
      → ToolExecutionLedger Args Receipt
      → ToolExecutionLedger Args Receipt
  update_record id f l = elim (get_record id l) [
    | none ↦ l
    | some rec ↦ record l { records_by_call_id = Dict.insert id (f rec) l.records_by_call_id }
  ]

  -- `wall` is what `time.time()` returns.
  unfoldable pub mark_validated :
      String → ℕ → ToolExecutionLedger Args Receipt → ToolExecutionLedger Args Receipt
  unfolding update_record is_proposed
  mark_validated id wall l =
      update_record id
        (λ rec.
          if is_proposed rec.status
          then record rec { status = validated; updated_at = wall }
          else rec)
        l

  unfoldable pub mark_submitted :
      String → ℕ → ToolExecutionLedger Args Receipt → ToolExecutionLedger Args Receipt
  unfolding update_record
  mark_submitted id wall l =
      update_record id (λ rec. record rec { status = submitted; updated_at = wall }) l

  unfoldable pub mark_replayed :
      String → Receipt → ℕ → ToolExecutionLedger Args Receipt → ToolExecutionLedger Args Receipt
  unfolding update_record
  mark_replayed id receipt now l =
      update_record id
        (λ rec. record rec {
          status = replayed;
          execution_receipt = some receipt;
          updated_at = now;
        })
        l

  unfoldable pub mark_indeterminate :
      String → String → ℕ → ToolExecutionLedger Args Receipt → ToolExecutionLedger Args Receipt
  unfolding update_record
  mark_indeterminate id reason wall l =
      update_record id
        (λ rec. record rec {
          status = indeterminate;
          error_message = some reason;
          updated_at = wall;
        })
        l

  abbrev pub mark_ambiguous :
      String → String → ℕ → ToolExecutionLedger Args Receipt → ToolExecutionLedger Args Receipt
  mark_ambiguous id reason wall l = mark_indeterminate id reason wall l

  unfoldable pub mark_failed :
      String → String → ℕ → ToolExecutionLedger Args Receipt → ToolExecutionLedger Args Receipt
  unfolding update_record
  mark_failed id message wall l =
      update_record id
        (λ rec. record rec { status = failed; error_message = some message; updated_at = wall }) l

  abbrev pub record_key : ToolExecutionRecord Args Receipt → String
  record_key rec = op_key rec.logical_operation_id rec.tool_name rec.arguments_hash

  -- `now` is the time of the stamp and `evict_now` that which `_evict` reads after it.
  unfoldable pub mark_committed :
      String
      → Receipt
      → ℕ
      → ℕ
      → ℕ
      → ToolExecutionLedger Args Receipt
      → ToolExecutionLedger Args Receipt
  mark_committed id receipt wall now evict_now l = elim (get_record id l) [
    | none ↦ l
    | some rec ↦
        let rec' = record rec {
          status = committed;
          execution_receipt = some receipt;
          updated_at = wall;
        } in
        evict evict_now (record l {
          records_by_call_id = Dict.insert id rec' l.records_by_call_id;
          receipts_by_op_hash = Dict.insert (record_key rec) (receipt, now) l.receipts_by_op_hash;
        })
  ]

  -- The test of `has_indeterminate_operation` on one record.
  unfoldable pub blocks : String → String → String → ToolExecutionRecord Args Receipt → Bool
  unfolding is_indeterminate
  blocks logical_op_id tool_name hash rec =
      rec.logical_operation_id == logical_op_id
      && rec.tool_name == tool_name
      && rec.arguments_hash == hash
      && is_indeterminate rec.status

  -- `none` is `(False, None)`.
  unfoldable pub receipt_at : String → ℕ → ToolExecutionLedger Args Receipt → Option Receipt
  unfolding fresh_receipt
  receipt_at key now l = fresh_receipt l.ttl now (Dict.lookup key l.receipts_by_op_hash)

  module _ (digest : Args → String) where
    unfoldable pub register_tool_call :
        String
        → String
        → String
        → Args
        → ℕ
        → ℕ
        → ToolExecutionLedger Args Receipt
        → ToolExecutionRecord Args Receipt × ToolExecutionLedger Args Receipt
    register_tool_call id logical_op_id tool_name arguments now evict_now l =
        elim (get_record id l) [
          | some rec ↦ (rec, l)
          | none ↦
              let rec : ToolExecutionRecord Args Receipt = record {
                tool_call_id = id;
                logical_operation_id = logical_op_id;
                tool_name = tool_name;
                arguments_hash = digest arguments;
                arguments = arguments;
                status = proposed;
                execution_receipt = none;
                created_at = now;
                updated_at = now;
                error_message = none;
              } in
              (
                rec,
                evict evict_now
                    (record l { records_by_call_id = Dict.insert id rec l.records_by_call_id }),
              )
        ]

    unfoldable pub check_idempotency :
        String → String → Args → ℕ → ToolExecutionLedger Args Receipt → Option Receipt
    check_idempotency logical_op_id tool_name arguments now l =
        receipt_at (op_key logical_op_id tool_name (digest arguments)) now l

    unfoldable pub has_indeterminate_operation :
        String → String → Args → ToolExecutionLedger Args Receipt → Bool
    has_indeterminate_operation logical_op_id tool_name arguments l =
        any
          (λ (e : String × ToolExecutionRecord Args Receipt).
            blocks logical_op_id tool_name (digest arguments) e.1)
          l.records_by_call_id
