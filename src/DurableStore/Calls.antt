-- ===== src/DurableStore/Calls.antt =====
-- One call of a method on the durable operations, and a sequence of calls, of any processes that
-- share the database: the transactions serialise them.
use durallm.Common.{ℕ, String, List, [], ◌∷◌}
use durallm.DurableStore
use durallm.DurableStore.Tables
use durallm.DurableStore.Tables.{Result, ok, err, Database, Lease}

module _ (Args Receipt : Type 0) where
  pub data StoreOp : Type 0 where
    prepare : String → String → String → String → Args → ℕ → StoreOp
    validate : String → ℕ → StoreOp
    submit : String → String → ℕ → ℕ → StoreOp
    commit : String → String → ℕ → Receipt → ℕ → ℕ → StoreOp
    lose : String → String → ℕ → StoreOp
    fail : String → String → ℕ → StoreOp
    recover : String → ℕ → StoreOp
    acquire : String → String → ℕ → ℕ → StoreOp
    release : String → String → ℕ → StoreOp

-- The tables after a transaction; a method that raises leaves them as they were.
abbrev pub settled : {S : Type 0} → Result S → S → S
settled (ok s') s = s'
settled (err e) s = s

abbrev pub settled_lease : {S : Type 0} → Result (Lease × S) → S → S
settled_lease (ok (lease, s')) s = s'
settled_lease (err e) s = s

module _ {Args Receipt : Type 0} (sha256 : String → String) where
  unfoldable pub step : StoreOp Args Receipt → Database Args Receipt → Database Args Receipt
  step (prepare call op tool hash args now) s =
      settled (DurableStore.prepare_operation sha256 call op tool hash args now s) s
  step (validate call now) s = settled (DurableStore.mark_operation_validated call now s) s
  step (submit call owner ttl now) s =
      settled_lease (DurableStore.mark_operation_submitted call owner ttl now s) s
  step (commit call owner token receipt now stamp) s =
      settled (DurableStore.mark_operation_committed call owner token receipt now stamp s) s
  step (lose call reason now) s =
      settled (DurableStore.mark_operation_indeterminate call reason now s) s
  step (fail call reason now) s = settled (DurableStore.mark_operation_failed call reason now s) s
  step (recover reason now) s = DurableStore.recover_inflight_operations reason now s
  step (acquire resource owner ttl now) s = (Tables.acquire_lease resource owner ttl now s).1
  step (release resource owner token) s = (Tables.release_lease resource owner token s).1

  unfoldable pub run : Database Args Receipt → List (StoreOp Args Receipt) → Database Args Receipt
  run s [] = s
  run s (op ∷ ops) = run (step op s) ops
