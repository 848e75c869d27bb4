-- ===== src/DurableStore/Leases.antt =====
-- Takeovers of the leases of durallm/storage/sqlite.py.
use mathlib.Core.Path.{subst}
use durallm.Common.{
  ℕ, ◌+◌, ◌≤◌, ◌<◌, ◌≡◌, refl, sym, ap, ◌∙◌, false, Option, none, some, String, List, le→leb, max,
  ◌==◌, string_eq, nat_eq, arith,
}
use durallm.Common.Dict
use durallm.Common.Dict.{Dict}
use durallm.DurableStore
use durallm.DurableStore.Tables
use durallm.DurableStore.Tables.{
  Result, ok, err, lease_unavailable, Database, Lease, LeaseRow, OperationRow, lease_row,
  store_lease, acquire_lease, delete_lease, is_live, holds, operation_for_call, lease_of,
  StoredOperation,
}
use durallm.DurableStore.Calls as Store
use durallm.DurableStore.Tokens.{Climbs, StaysHeld, run-Climbs}

-- An older token is not live.
passed :
    (o : Option LeaseRow) (next : LeaseRow) (owner : String) (token later : ℕ)
    → token < next.fencing_token
    → Climbs (some next) o
    → is_live o owner token later ≡ false
unfolding is_live
passed none next owner token later lt h = refl
passed (some row) next owner token later lt h = ground arith

module _ {Args Receipt : Type 0} (resource : String) where
  commit_dead :
      (call owner : String) (token : ℕ) (receipt : Receipt) (now stamp : ℕ)
      (s : Database Args Receipt) (op : StoredOperation Args Receipt)
      → operation_for_call call s ≡ some op
      → is_live (Dict.lookup (lease_of op.operation_key) s.leases) owner token now ≡ false
      → DurableStore.mark_operation_committed call owner token receipt now stamp s
        ≡ err lease_unavailable
  unfolding DurableStore.mark_operation_committed
  commit_dead call owner token receipt now stamp s op found dead =
      rw (found, DurableStore.mark_operation_committed) (rw dead)

  -- What the takeover leaves.
  taken_over :
      (other : String) (ttl now : ℕ) (row : LeaseRow) (s : Database Args Receipt)
      → Dict.lookup resource s.leases ≡ some row
      → (row.owner_id == other) ≡ false
      → row.expires_at ≤ now
      → let next : LeaseRow = record {
        owner_id = other;
        fencing_token = row.fencing_token + 1;
        expires_at = now + max 1 ttl;
      } in
        ((acquire_lease resource other ttl now s).0 ≡ some (Tables.as_lease resource next))
        × (Dict.lookup resource (acquire_lease resource other ttl now s).1.leases ≡ some next)
  unfolding acquire_lease lease_row store_lease
  taken_over other ttl now row s held ne over =
      rw (held, lease_row)
        (rw ne (rw (le→leb _ _ over) (refl, Dict.lookup-insert_self resource _ s.leases)))

module _ {Args Receipt : Type 0} (sha256 : String → String) (resource : String) where
  -- When a lease on an operation has expired, another owner acquires it with the next fencing token,
  -- and through any calls of any workers afterwards, while the lease is not deleted, a commit of the
  -- operation with the old token is refused, whoever makes it and at any time, also where the old
  -- owner holds the lease again.
  pub acquire_lease-fences :
      (call owner other key : String) (ttl now : ℕ) (row : LeaseRow) (s : Database Args Receipt)
      (ops : List (Store.StoreOp Args Receipt)) (op : StoredOperation Args Receipt)
      → resource ≡ lease_of key
      → Dict.lookup resource s.leases ≡ some row
      → (row.owner_id == other) ≡ false
      → row.expires_at ≤ now
      → StaysHeld sha256 resource (acquire_lease resource other ttl now s).1 ops
      → operation_for_call call (Store.run sha256 (acquire_lease resource other ttl now s).1 ops)
        ≡ some op
      → op.operation_key ≡ key
      → ((acquire_lease resource other ttl now s).0
          ≡ some (record {
            resource = resource;
            owner_id = other;
            fencing_token = row.fencing_token + 1;
            expires_at = now + max 1 ttl;
          }))
        × ((receipt : Receipt) (later stamp : ℕ)
            → DurableStore.mark_operation_committed call owner row.fencing_token receipt later stamp
                (Store.run sha256 (acquire_lease resource other ttl now s).1 ops)
              ≡ err lease_unavailable)
  acquire_lease-fences call owner other key ttl now row s ops op named held ne expired' stays found
        at_key =
      let next : LeaseRow = record {
        owner_id = other;
        fencing_token = row.fencing_token + 1;
        expires_at = now + max 1 ttl;
      } in
      let (given, taken) = taken_over resource other ttl now row s held ne expired' in
      let s1 = (acquire_lease resource other ttl now s).1 in
      let s2 = Store.run sha256 s1 ops in
      let climbs : Climbs (some next) (Dict.lookup resource s2.leases) =
        subst (λ o. Climbs o (Dict.lookup resource s2.leases)) taken
          (run-Climbs sha256 resource s1 ops stays) in
      let same : lease_of op.operation_key ≡ resource = ap lease_of at_key ∙ sym named in
      (
        given,
        λ receipt later stamp.
            commit_dead resource call owner row.fencing_token receipt later stamp s2 op found (
              subst (λ k. is_live (Dict.lookup k s2.leases) owner row.fencing_token later ≡ false)
                (sym same)
                (passed (Dict.lookup resource s2.leases) next owner row.fencing_token later
                  (omega arith) climbs)),
      )
