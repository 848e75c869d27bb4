-- ===== src/ToolLedger/Lifecycle.antt =====
-- What a mark on a record has to do with the tests made before a tool runs.
use durallm.Common.{
  ℕ, ◌≡◌, refl, ◌∙◌, inl, inr, Bool, true, false, some, String, List, [], ◌∷◌, ◌==◌, string_eq,
  eq_iff, arith, Bool-cases, Option-cases, All, any,
}
use durallm.Common.Dict
use durallm.Common.Dict.{Dict}
use durallm.ToolLedger
use durallm.ToolLedger.{
  ToolExecutionLedger, ToolExecutionRecord, get_record, record_key, expired, evict_store, evict,
  stamped, created, blocks, fresh_receipt, update_record, receipt_at, mark_committed,
  mark_submitted, mark_indeterminate, register_tool_call, has_indeterminate_operation,
}
use durallm.ToolLedger.Calls.{
  LedgerOp, register, validate, submit, commit, replay, lose, fail, step, run,
}

any_found :
    {V : Type 0} (p : V → Bool) (k : String) (v : V) (d : Dict String V)
    → Dict.lookup k d ≡ some v
    → p v ≡ true
    → any (λ (e : String × V). p e.1) d ≡ true
unfolding Dict.lookup
any_found p k v [] h t = cc
any_found p k v ((j, w) ∷ d) h t = elim (Bool-cases (j == k)) [
  | inl same ↦ let e : w ≡ v = ground arith in rw (e, t)
  | inr other ↦ ground (arith, any_found p k v d)
]

module _ {Args Receipt : Type 0} where
  update_found :
      (id : String) (f : ToolExecutionRecord Args Receipt → ToolExecutionRecord Args Receipt)
      (l : ToolExecutionLedger Args Receipt) (rec : ToolExecutionRecord Args Receipt)
      → get_record id l ≡ some rec
      → get_record id (update_record id f l) ≡ some (f rec)
  unfolding update_record
  update_found id f l rec h =
      rw (h, update_record) (Dict.lookup-insert_self id (f rec) l.records_by_call_id)

  update_other :
      (id j : String) (f : ToolExecutionRecord Args Receipt → ToolExecutionRecord Args Receipt)
      (l : ToolExecutionLedger Args Receipt)
      → (id == j) ≡ false
      → get_record j (update_record id f l) ≡ get_record j l
  unfolding update_record
  update_other id j f l ne = elim (Option-cases (get_record id l)) [
    | inl absent ↦ rw (absent, update_record)
    | inr (rec, present) ↦ rw (present, update_record) (rw Dict.lookup-insert (rw ne))
  ]

-- A call on another id that cannot evict: any mark but `mark_committed`.
abbrev pub Elsewhere : {Args Receipt : Type 0} → String → LedgerOp Args Receipt → Type 0
Elsewhere id (validate j wall) = (j == id) ≡ false
Elsewhere id (submit j wall) = (j == id) ≡ false
Elsewhere id (replay j receipt now) = (j == id) ≡ false
Elsewhere id (lose j reason wall) = (j == id) ≡ false
Elsewhere id (fail j message wall) = (j == id) ≡ false
Elsewhere id (register _ _ _ _ _ _) = ⊥
Elsewhere id (commit _ _ _ _ _) = ⊥

module _ {Args Receipt : Type 0} (digest : Args → String) where
  blocked :
      (id : String) (rec : ToolExecutionRecord Args Receipt) (l : ToolExecutionLedger Args Receipt)
      (op tool : String) (args : Args)
      → get_record id l ≡ some rec
      → blocks op tool (digest args) rec ≡ true
      → has_indeterminate_operation digest op tool args l ≡ true
  unfolding has_indeterminate_operation
  blocked id rec l op tool args h b =
      any_found (blocks op tool (digest args)) id rec l.records_by_call_id h b

  get_record-step :
      (id : String) (op : LedgerOp Args Receipt) (l : ToolExecutionLedger Args Receipt)
      → Elsewhere id op
      → get_record id (step digest op l) ≡ get_record id l
  unfolding step ToolLedger.mark_validated ToolLedger.mark_submitted ToolLedger.mark_replayed
      ToolLedger.mark_indeterminate ToolLedger.mark_failed
  get_record-step id (validate j wall) l ne = update_other j id _ l ne
  get_record-step id (submit j wall) l ne = update_other j id _ l ne
  get_record-step id (replay j receipt now) l ne = update_other j id _ l ne
  get_record-step id (lose j reason wall) l ne = update_other j id _ l ne
  get_record-step id (fail j message wall) l ne = update_other j id _ l ne
  get_record-step id (register _ _ _ _ _ _) l ne = absurd ne
  get_record-step id (commit _ _ _ _ _) l ne = absurd ne

  get_record-run :
      (id : String) (l : ToolExecutionLedger Args Receipt) (ops : List (LedgerOp Args Receipt))
      → All (Elsewhere id) ops
      → get_record id (run digest l ops) ≡ get_record id l
  unfolding run
  get_record-run id l [] h = refl
  get_record-run id l (op ∷ ops) h =
      get_record-run id (step digest op l) ops h.1 ∙ get_record-step id op l h.0

  -- Once a registered call is submitted, or its acknowledgement is lost, the test for an
  -- indeterminate operation answers true for its operation, tool and arguments, and goes on doing
  -- so through any validations, submissions, replays, losses and failures of other calls.
  pub indeterminate_blocks :
      (id : String) (reason : String) (wall : ℕ) (rec : ToolExecutionRecord Args Receipt)
      (l : ToolExecutionLedger Args Receipt) (arguments : Args) (ops : List (LedgerOp Args Receipt))
      → get_record id l ≡ some rec
      → rec.arguments_hash ≡ digest arguments
      → All (Elsewhere id) ops
      → let asked =
          has_indeterminate_operation digest rec.logical_operation_id rec.tool_name arguments in
        (asked (run digest (mark_submitted id wall l) ops) ≡ true)
        × (asked (run digest (mark_indeterminate id reason wall l) ops) ≡ true)
  unfolding mark_submitted mark_indeterminate blocks
  indeterminate_blocks id reason wall rec l arguments ops h same others = (
    blocked id _ _ rec.logical_operation_id rec.tool_name arguments
        (get_record-run id _ ops others ∙ update_found id _ l rec h)
        (ground (
          arith,
          eq_iff rec.logical_operation_id rec.logical_operation_id,
          eq_iff rec.tool_name rec.tool_name,
          eq_iff rec.arguments_hash (digest arguments),
        )),
    blocked id _ _ rec.logical_operation_id rec.tool_name arguments
        (get_record-run id _ ops others ∙ update_found id _ l rec h)
        (ground (
          arith,
          eq_iff rec.logical_operation_id rec.logical_operation_id,
          eq_iff rec.tool_name rec.tool_name,
          eq_iff rec.arguments_hash (digest arguments),
        )),
  )
