-- ===== src/ToolLedger/Persistence.antt =====
-- A receipt in the ledger of durallm/agent/idempotency.py after its commit.
use durallm.Common.{
  ℕ, ◌≤◌, ◌<◌, ◌≡◌, refl, ap, ◌∙◌, inl, inr, false, Option, none, some, String, List, [], ◌∷◌,
  length, string_eq, arith, Option-cases, All,
}
use durallm.Common.Dict
use durallm.ToolLedger
use durallm.ToolLedger.{
  ToolExecutionLedger, ToolExecutionRecord, get_record, record_key, expired, evict, stamped,
  fresh_receipt, update_record, receipt_at, mark_committed, register_tool_call,
}
use durallm.ToolLedger.Evict.{lookup-evict-insert, lookup-evict_store, length-evict_store}
use durallm.ToolLedger.Calls.{
  LedgerOp, register, validate, submit, commit, replay, lose, fail, step, run,
}

fresh_receipt-some :
    {Receipt : Type 0} (ttl : Option ℕ) (t : ℕ) (receipt : Receipt) (stamp : ℕ)
    → expired ttl t stamp ≡ false
    → fresh_receipt ttl t (some (receipt, stamp)) ≡ some receipt
unfolding fresh_receipt
fresh_receipt-some ttl t receipt stamp fresh = rw fresh

earlier :
    (o : Option ℕ) (ev t stamp : ℕ)
    → ev ≤ t
    → expired o t stamp ≡ false
    → expired o ev stamp ≡ false
earlier none ev t stamp le h = refl
earlier (some n) ev t stamp le h = ground arith

-- A call before a time that commits nothing.
abbrev pub CommitsNothing : {Args Receipt : Type 0} → ℕ → LedgerOp Args Receipt → Type 0
CommitsNothing t (register id op tool args now ev) = ev ≤ t
CommitsNothing t (commit _ _ _ _ _) = ⊥
CommitsNothing t _ = Unit

module _ {Args Receipt : Type 0} (key : String) (receipt : Receipt) (now : ℕ) (ttl : Option ℕ) where
  -- The receipt is there, and the store is within its bound.
  record Holds (l : ToolExecutionLedger Args Receipt) : Type 0 where
    lives : l.ttl ≡ ttl
    entry : Dict.lookup key l.receipts_by_op_hash ≡ some (receipt, now)
    fits : length l.receipts_by_op_hash ≤ l.max_records

  update-Holds :
      (id : String) (f : ToolExecutionRecord Args Receipt → ToolExecutionRecord Args Receipt)
      (l : ToolExecutionLedger Args Receipt)
      → Holds l
      → Holds (update_record id f l)
  unfolding update_record
  update-Holds id f l h = elim (Option-cases (get_record id l)) [
    | inl absent ↦ rw (absent, update_record) h
    | inr (rec, present) ↦
        rw (present, update_record) (record { lives = h.lives; entry = h.entry; fits = h.fits })
  ]

  evict-Holds :
      (ev : ℕ) (l : ToolExecutionLedger Args Receipt)
      → expired ttl ev now ≡ false
      → Holds l
      → Holds (evict ev l)
  unfolding evict
  evict-Holds ev l fresh h = record {
    lives = h.lives;
    entry =
        lookup-evict_store stamped l.ttl l.max_records ev key (receipt, now) l.receipts_by_op_hash
          h.fits h.entry (ap (λ o. expired o ev now) h.lives ∙ fresh);
    fits = length-evict_store stamped l.ttl l.max_records ev l.receipts_by_op_hash;
  }

  module _ (digest : Args → String) (t : ℕ) (fresh : expired ttl t now ≡ false) where
    register-Holds :
        (id op tool : String) (args : Args) (at ev : ℕ) (l : ToolExecutionLedger Args Receipt)
        → ev ≤ t
        → Holds l
        → Holds (register_tool_call digest id op tool args at ev l).1
    unfolding register_tool_call
    register-Holds id op tool args at ev l le h = elim (Option-cases (get_record id l)) [
      | inr (rec, present) ↦ rw (present, register_tool_call) h
      | inl absent ↦
          rw (absent, register_tool_call)
            (evict-Holds ev _ (earlier ttl ev t now le fresh)
              (record { lives = h.lives; entry = h.entry; fits = h.fits }))
    ]

    step-Holds :
        (op : LedgerOp Args Receipt) (l : ToolExecutionLedger Args Receipt)
        → CommitsNothing t op
        → Holds l
        → Holds (step digest op l)
    unfolding step ToolLedger.mark_validated ToolLedger.mark_submitted ToolLedger.mark_replayed
        ToolLedger.mark_indeterminate ToolLedger.mark_failed
    step-Holds (register id op tool args at ev) l le h = register-Holds id op tool args at ev l le h
    step-Holds (validate j wall) l q h = update-Holds j _ l h
    step-Holds (submit j wall) l q h = update-Holds j _ l h
    step-Holds (commit j r wall at ev) l q h = absurd q
    step-Holds (replay j r at) l q h = update-Holds j _ l h
    step-Holds (lose j reason wall) l q h = update-Holds j _ l h
    step-Holds (fail j message wall) l q h = update-Holds j _ l h

    run-Holds :
        (l : ToolExecutionLedger Args Receipt) (ops : List (LedgerOp Args Receipt))
        → All (CommitsNothing t) ops
        → Holds l
        → Holds (run digest l ops)
    unfolding run
    run-Holds l [] q h = h
    run-Holds l (op ∷ ops) q h = run-Holds (step digest op l) ops q.1 (step-Holds op l q.0 h)

    Holds-receipt_at :
        (l : ToolExecutionLedger Args Receipt) → Holds l → receipt_at key t l ≡ some receipt
    unfolding receipt_at
    Holds-receipt_at l h =
        ap (λ e. fresh_receipt l.ttl t e) h.entry
        ∙ fresh_receipt-some l.ttl t receipt now (ap (λ o. expired o t now) h.lives ∙ fresh)

module _ {Args Receipt : Type 0} (digest : Args → String) where
  committed-Holds :
      (id : String) (receipt : Receipt) (wall now ev : ℕ) (l : ToolExecutionLedger Args Receipt)
      (rec : ToolExecutionRecord Args Receipt)
      → get_record id l ≡ some rec
      → length l.receipts_by_op_hash ≤ l.max_records
      → 0 < l.max_records
      → expired l.ttl ev now ≡ false
      → Holds (record_key rec) receipt now l.ttl (mark_committed id receipt wall now ev l)
  unfolding mark_committed evict
  committed-Holds id receipt wall now ev l rec h fits pos fresh =
      rw (h, mark_committed)
        (record {
          lives = refl;
          entry =
              lookup-evict-insert stamped l.ttl l.max_records ev (record_key rec) (receipt, now)
                l.receipts_by_op_hash fits pos fresh;
          fits =
              length-evict_store stamped l.ttl l.max_records ev
                (Dict.insert (record_key rec) (receipt, now) l.receipts_by_op_hash);
        })

  -- After `mark_committed` of a registered call on a ledger whose receipts were within the bound,
  -- the ledger hands out the receipt for the key of that call until the time to live has passed,
  -- through any registrations, validations, submissions, replays, losses and failures made by then.
  -- Another `mark_committed` is not among the calls: it can evict the receipt or replace it.
  pub receipt_at-mark_committed :
      (id : String) (receipt : Receipt) (wall now ev t : ℕ) (l : ToolExecutionLedger Args Receipt)
      (rec : ToolExecutionRecord Args Receipt) (ops : List (LedgerOp Args Receipt))
      → get_record id l ≡ some rec
      → length l.receipts_by_op_hash ≤ l.max_records
      → 0 < l.max_records
      → expired l.ttl ev now ≡ false
      → expired l.ttl t now ≡ false
      → All (CommitsNothing t) ops
      → receipt_at (record_key rec) t (run digest (mark_committed id receipt wall now ev l) ops)
        ≡ some receipt
  receipt_at-mark_committed id receipt wall now ev t l rec ops h fits pos fresh fresh' quiet =
      Holds-receipt_at (record_key rec) receipt now l.ttl digest t fresh' _ (
        run-Holds (record_key rec) receipt now l.ttl digest t fresh'
          (mark_committed id receipt wall now ev l) ops quiet
          (committed-Holds id receipt wall now ev l rec h fits pos fresh))
