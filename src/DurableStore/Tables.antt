-- ===== src/DurableStore/Tables.antt =====
-- The tables of durallm/storage/sqlite.py, their rows, and the leases.
use Prim.Native.String.{◌++◌}
use durallm.Common.{
  ℕ, ◌+◌, Bool, true, false, not, ◌&&◌, Option, none, some, String, leb, max, if◌then◌else◌, ◌==◌,
  string_eq, nat_eq,
}
use durallm.Common.Dict
use durallm.Common.Dict.{Dict}
use durallm.ToolLedger.{
  ToolExecutionStatus, proposed, validated, submitted, committed, indeterminate, ambiguous,
}

pub data StoreError : Type 0 where
  durable_store_error lease_unavailable : StoreError

pub data Result {ℓ} (A : Type ℓ) : Type ℓ where
  ok : A → Result A
  err : StoreError → Result A

-- A row of `durable_operations` without its key.
pub record OperationRow (Args Receipt : Type 0) : Type 0 where
  pub logical_operation_id : String
  pub tool_name : String
  pub arguments_hash : String
  pub arguments : Args
  pub status : ToolExecutionStatus
  pub execution_receipt : Option Receipt
  pub error_message : Option String
  pub created_at : ℕ
  pub updated_at : ℕ

pub record StoredOperation (Args Receipt : Type 0) : Type 0 where
  pub operation_key : String
  pub row : OperationRow Args Receipt
  pub open row use *

-- A row of `durable_leases` without its key.
pub record LeaseRow : Type 0 where
  pub owner_id : String
  pub fencing_token : ℕ
  pub expires_at : ℕ

pub record Lease : Type 0 where
  pub resource : String
  pub owner_id : String
  pub fencing_token : ℕ
  pub expires_at : ℕ

pub record Database (Args Receipt : Type 0) : Type 0 where
  pub operations : Dict String (OperationRow Args Receipt)
  pub calls : Dict String String
  pub leases : Dict String LeaseRow

-- `_operation_key`
abbrev pub operation_key : (String → String) → String → String → String → String
operation_key sha256 logical_operation_id tool_name arguments_hash =
    sha256 (logical_operation_id ++ "\u{1f}" ++ tool_name ++ "\u{1f}" ++ arguments_hash)

-- The lease of an operation.
abbrev pub lease_of : String → String
lease_of key = "operation:" ++ key

-- The lease that a row stands for.
abbrev pub as_lease : String → LeaseRow → Lease
as_lease resource row = record {
  resource = resource;
  owner_id = row.owner_id;
  fencing_token = row.fencing_token;
  expires_at = row.expires_at;
}

-- PROPOSED or VALIDATED: the states from which an operation may be submitted.
unfoldable pub submittable : ToolExecutionStatus → Bool
submittable proposed = true
submittable validated = true
submittable _ = false

unfoldable pub is_proposed : ToolExecutionStatus → Bool
is_proposed proposed = true
is_proposed _ = false

unfoldable pub is_submitted : ToolExecutionStatus → Bool
is_submitted submitted = true
is_submitted _ = false

unfoldable pub is_committed : ToolExecutionStatus → Bool
is_committed committed = true
is_committed _ = false

unfoldable pub is_indeterminate : ToolExecutionStatus → Bool
is_indeterminate indeterminate = true
is_indeterminate _ = false

-- `operation_requires_manual_resolution`
unfoldable pub requires_manual_resolution : ToolExecutionStatus → Bool
requires_manual_resolution submitted = true
requires_manual_resolution indeterminate = true
requires_manual_resolution ambiguous = true
requires_manual_resolution _ = false

-- The three branches of `_acquire_lease_locked` on the row of the resource.
unfoldable pub lease_row : Option LeaseRow → String → ℕ → ℕ → Option LeaseRow
lease_row none owner expires now =
    some (record { owner_id = owner; fencing_token = 1; expires_at = expires })
lease_row (some row) owner expires now =
    if row.owner_id == owner
    then some (record row { expires_at = expires })
    else if leb row.expires_at now
    then some
        (record { owner_id = owner; fencing_token = row.fencing_token + 1; expires_at = expires })
    else none

unfoldable pub holds : Option LeaseRow → String → ℕ → Bool
holds none owner token = false
holds (some row) owner token = row.owner_id == owner && row.fencing_token == token

-- `_assert_lease_locked` passes.
unfoldable pub is_live : Option LeaseRow → String → ℕ → ℕ → Bool
is_live none owner token now = false
is_live (some row) owner token now =
    row.owner_id == owner && row.fencing_token == token && not (leb row.expires_at now)

unfoldable pub insert_or_ignore : {V : Type 0} → String → V → Dict String V → Dict String V
insert_or_ignore key v d = elim (Dict.lookup key d) [ none ↦ Dict.insert key v d | some w ↦ d ]

unfoldable pub bound_elsewhere : Option String → String → Bool
bound_elsewhere none key = false
bound_elsewhere (some bound) key = not (bound == key)

module _ {Args Receipt : Type 0} where
  abbrev pub set_row :
      String → OperationRow Args Receipt → Database Args Receipt → Database Args Receipt
  set_row key row s = record s { operations = Dict.insert key row s.operations }

  -- `_operation_for_call_locked`: the join of the two tables.
  unfoldable pub found_row :
      String → Option (OperationRow Args Receipt) → Option (StoredOperation Args Receipt)
  found_row key none = none
  found_row key (some row) = some (record { operation_key = key; row = row })

  unfoldable pub joined :
      Option String
      → Dict String (OperationRow Args Receipt)
      → Option (StoredOperation Args Receipt)
  unfolding found_row
  joined none rows = none
  joined (some key) rows = found_row key (Dict.lookup key rows)

  unfoldable pub operation_for_call :
      String → Database Args Receipt → Option (StoredOperation Args Receipt)
  unfolding joined
  operation_for_call tool_call_id s = joined (Dict.lookup tool_call_id s.calls) s.operations

  unfoldable pub store_lease :
      Option LeaseRow → String → Database Args Receipt → Option Lease × Database Args Receipt
  store_lease none resource s = (none, s)
  store_lease (some row) resource s =
      (some (as_lease resource row), record s { leases = Dict.insert resource row s.leases })

  -- `acquire_lease`; a time to live is at least one millisecond.
  unfoldable pub acquire_lease :
      String → String → ℕ → ℕ → Database Args Receipt → Option Lease × Database Args Receipt
  unfolding lease_row store_lease
  acquire_lease resource owner ttl now s =
      store_lease (lease_row (Dict.lookup resource s.leases) owner (now + max 1 ttl) now) resource s

  -- Deletes the lease if the owner and the token are its own.
  unfoldable pub delete_lease : String → String → ℕ → Database Args Receipt → Database Args Receipt
  unfolding holds
  delete_lease resource owner token s =
      if holds (Dict.lookup resource s.leases) owner token
      then record s { leases = Dict.remove resource s.leases }
      else s

  unfoldable pub release_lease :
      String → String → ℕ → Database Args Receipt → Bool × Database Args Receipt
  unfolding delete_lease
  release_lease resource owner token s =
      (holds (Dict.lookup resource s.leases) owner token, delete_lease resource owner token s)
