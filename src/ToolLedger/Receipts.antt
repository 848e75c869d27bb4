-- ===== src/ToolLedger/Receipts.antt =====
-- Which receipts the ledger hands out.
use mathlib.Core.Path.{subst}
use durallm.Common.{
  ℕ, ◌≡◌, refl, sym, ◌∙◌, ◌⊎◌, inl, inr, false, Option, none, some, String, List, [], ◌∷◌,
  string_eq, arith, Option-cases,
}
use durallm.Common.Dict
use durallm.Common.Dict.{Dict}
use durallm.ToolLedger
use durallm.ToolLedger.{
  ToolExecutionLedger, ToolExecutionRecord, get_record, record_key, expired, evict_expired,
  evict_store, evict, stamped, created, update_record, receipt_at, fresh_receipt, mark_committed,
  register_tool_call,
}
use durallm.ToolLedger.Occurs.{
  Occurs, Occurs-append, Occurs-lookup, Occurs-insert, Occurs-evict_store,
}
use durallm.ToolLedger.Calls.{
  LedgerOp, register, validate, submit, commit, replay, lose, fail, new_ledger, step, run,
  commit_of, commits,
}

module _ {Args Receipt : Type 0} where
  -- Marking a record leaves the receipts alone.
  receipts-update :
      (id : String) (f : ToolExecutionRecord Args Receipt → ToolExecutionRecord Args Receipt)
      (l : ToolExecutionLedger Args Receipt)
      → (update_record id f l).receipts_by_op_hash ≡ l.receipts_by_op_hash
  unfolding update_record
  receipts-update id f l = ground arith

  pub ttl-update :
      (id : String) (f : ToolExecutionRecord Args Receipt → ToolExecutionRecord Args Receipt)
      (l : ToolExecutionLedger Args Receipt)
      → (update_record id f l).ttl ≡ l.ttl
  unfolding update_record
  ttl-update id f l = ground arith

  pub receipts-commit :
      (id : String) (receipt : Receipt) (wall now ev : ℕ) (l : ToolExecutionLedger Args Receipt)
      (rec : ToolExecutionRecord Args Receipt)
      → get_record id l ≡ some rec
      → (mark_committed id receipt wall now ev l).receipts_by_op_hash
        ≡ evict_store stamped l.ttl l.max_records ev
            (Dict.insert (record_key rec) (receipt, now) l.receipts_by_op_hash)
  unfolding mark_committed evict
  receipts-commit id receipt wall now ev l rec h = rw (h, mark_committed)

  commit_absent :
      (id : String) (receipt : Receipt) (wall now ev : ℕ) (l : ToolExecutionLedger Args Receipt)
      → get_record id l ≡ none
      → mark_committed id receipt wall now ev l ≡ l
  unfolding mark_committed
  commit_absent id receipt wall now ev l h = rw (h, mark_committed)

fresh_receipt_entry :
    {Receipt : Type 0} (ttl : Option ℕ) (t : ℕ) (entry : Option (Receipt × ℕ)) (receipt : Receipt)
    → fresh_receipt ttl t entry ≡ some receipt
    → (stamp : ℕ) × (entry ≡ some (receipt, stamp)) × (expired ttl t stamp ≡ false)
unfolding fresh_receipt
fresh_receipt_entry ttl t none receipt h = cc
fresh_receipt_entry ttl t (some (r, stamp)) receipt h = (stamp, ground arith, ground arith)

module _ {Args Receipt : Type 0} (digest : Args → String) where
  receipts-register :
      (id op tool : String) (args : Args) (now ev : ℕ) (l : ToolExecutionLedger Args Receipt)
      → get_record id l ≡ none
      → (register_tool_call digest id op tool args now ev l).1.receipts_by_op_hash
        ≡ evict_store stamped l.ttl l.max_records ev l.receipts_by_op_hash
  unfolding register_tool_call evict
  receipts-register id op tool args now ev l h = rw (h, register_tool_call)

  register_again :
      (id op tool : String) (args : Args) (now ev : ℕ) (l : ToolExecutionLedger Args Receipt)
      (rec : ToolExecutionRecord Args Receipt)
      → get_record id l ≡ some rec
      → register_tool_call digest id op tool args now ev l ≡ (rec, l)
  unfolding register_tool_call
  register_again id op tool args now ev l rec h = rw (h, register_tool_call)

  commit_of_present :
      (id : String) (receipt : Receipt) (wall now ev : ℕ) (l : ToolExecutionLedger Args Receipt)
      (rec : ToolExecutionRecord Args Receipt)
      → get_record id l ≡ some rec
      → commit_of digest (commit id receipt wall now ev) l ≡ (record_key rec, (receipt, now)) ∷ []
  commit_of_present id receipt wall now ev l rec h = rw (h, commit_of)

  Occurs-step :
      (k : String) (e : Receipt × ℕ) (op : LedgerOp Args Receipt)
      (l : ToolExecutionLedger Args Receipt)
      → Occurs k e (step digest op l).receipts_by_op_hash
      → Occurs k e l.receipts_by_op_hash ⊎ Occurs k e (commit_of digest op l)
  unfolding step ToolLedger.mark_validated ToolLedger.mark_submitted ToolLedger.mark_replayed
      ToolLedger.mark_indeterminate ToolLedger.mark_failed
  Occurs-step k e (register id op tool args now ev) l h = elim (Option-cases (get_record id l)) [
    | inl absent ↦ inl (
        Occurs-evict_store stamped l.ttl l.max_records ev k e l.receipts_by_op_hash
          (subst (Occurs k e) (receipts-register id op tool args now ev l absent) h))
    | inr (rec, present) ↦ inl (
        subst
          (λ (p : ToolExecutionRecord Args Receipt × ToolExecutionLedger Args Receipt).
            Occurs k e p.1.receipts_by_op_hash)
          (register_again id op tool args now ev l rec present) h)
  ]
  Occurs-step k e (validate id wall) l h = inl (rw receipts-update at h)
  Occurs-step k e (submit id wall) l h = inl (rw receipts-update at h)
  Occurs-step k e (commit id receipt wall now ev) l h = elim (Option-cases (get_record id l)) [
    | inl absent ↦ inl (
        subst (λ (m : ToolExecutionLedger Args Receipt). Occurs k e m.receipts_by_op_hash)
          (commit_absent id receipt wall now ev l absent) h)
    | inr (rec, present) ↦
        let stored = Dict.insert (record_key rec) (receipt, now) l.receipts_by_op_hash in
        let h' : Occurs k e stored =
          Occurs-evict_store stamped l.ttl l.max_records ev k e stored
            (subst (Occurs k e) (receipts-commit id receipt wall now ev l rec present) h) in
        elim (Occurs-insert k (record_key rec) e (receipt, now) l.receipts_by_op_hash h') [
          | inl old ↦ inl old
          | inr new ↦ inr (
              subst (Occurs k e) (sym (commit_of_present id receipt wall now ev l rec present))
                (inl new))
        ]
  ]
  Occurs-step k e (replay id receipt now) l h = inl (rw receipts-update at h)
  Occurs-step k e (lose id reason wall) l h = inl (rw receipts-update at h)
  Occurs-step k e (fail id message wall) l h = inl (rw receipts-update at h)

  ttl-step :
      (op : LedgerOp Args Receipt) (l : ToolExecutionLedger Args Receipt)
      → (step digest op l).ttl ≡ l.ttl
  unfolding step ToolLedger.mark_validated ToolLedger.mark_submitted ToolLedger.mark_replayed
      ToolLedger.mark_indeterminate ToolLedger.mark_failed register_tool_call mark_committed evict
  ttl-step (register id op tool args now ev) l = ground arith
  ttl-step (validate id wall) l = rw ttl-update
  ttl-step (submit id wall) l = rw ttl-update
  ttl-step (commit id receipt wall now ev) l = ground arith
  ttl-step (replay id receipt now) l = rw ttl-update
  ttl-step (lose id reason wall) l = rw ttl-update
  ttl-step (fail id message wall) l = rw ttl-update

  ttl-run :
      (l : ToolExecutionLedger Args Receipt) (ops : List (LedgerOp Args Receipt))
      → (run digest l ops).ttl ≡ l.ttl
  unfolding run
  ttl-run l [] = refl
  ttl-run l (op ∷ ops) = ttl-run (step digest op l) ops ∙ ttl-step op l

  Occurs-run :
      (k : String) (e : Receipt × ℕ) (l : ToolExecutionLedger Args Receipt)
      (ops : List (LedgerOp Args Receipt))
      → Occurs k e (run digest l ops).receipts_by_op_hash
      → Occurs k e l.receipts_by_op_hash ⊎ Occurs k e (commits digest l ops)
  unfolding run
  Occurs-run k e l [] h = inl h
  Occurs-run k e l (op ∷ ops) h =
      let l' = step digest op l in
      let later = commits digest l' ops in
      elim (Occurs-run k e l' ops h) [
        | inl now ↦ elim (Occurs-step k e op l now) [
          | inl old ↦ inl old
          | inr new ↦ inr (Occurs-append k e (commit_of digest op l) later (inl new))
        ]
        | inr then' ↦ inr (Occurs-append k e (commit_of digest op l) later (inr then'))
      ]

  -- Whatever calls were made on a new ledger, a receipt that `check_idempotency` reports at time
  -- `t` is the receipt of a `mark_committed` among them, of a record with the same key, that is at
  -- most the time to live before `t`.
  pub check_idempotency_sound :
      (max_records : ℕ) (ttl : Option ℕ) (ops : List (LedgerOp Args Receipt))
      (logical_op_id tool_name : String) (arguments : Args) (t : ℕ) (receipt : Receipt)
      → let l = new_ledger Args Receipt max_records ttl in
        ToolLedger.check_idempotency digest logical_op_id tool_name arguments t (run digest l ops)
          ≡ some receipt
        → (stamp : ℕ) × Occurs
            (ToolLedger.op_key logical_op_id tool_name (digest arguments))
            (receipt, stamp)
            (commits digest l ops)
          × (expired ttl t stamp ≡ false)
  unfolding ToolLedger.check_idempotency receipt_at
  check_idempotency_sound max_records ttl ops logical_op_id tool_name arguments t receipt h =
      let l = new_ledger Args Receipt max_records ttl in
      let k = ToolLedger.op_key logical_op_id tool_name (digest arguments) in
      let (stamp, found, fresh) =
        fresh_receipt_entry (run digest l ops).ttl t
          (Dict.lookup k (run digest l ops).receipts_by_op_hash) receipt h in
      elim (Occurs-run k (receipt, stamp) l ops (Occurs-lookup k (receipt, stamp) _ found)) [
        | inl old ↦ absurd old
        | inr new ↦ (stamp, new, subst (λ x. expired x t stamp ≡ false) (ttl-run l ops) fresh)
      ]
