-- ===== src/DurableStore/Tokens.antt =====
-- The fencing token of a lease in durallm/storage/sqlite.py, before and after a call.
use mathlib.Core.Path.{subst}
use durallm.Common.{
  ℕ, ◌+◌, ◌≤◌, ◌≡◌, ◌⊎◌, refl, ◌∙◌, inl, inr, not, ◌||◌, Option, none, some, String, List, [], ◌∷◌,
  max, ◌==◌, string_eq, nat_eq, eq_iff, arith, Bool-cases, Option-cases, if_both, if◌then◌else◌,
}
use durallm.Common.Dict
use durallm.Common.Dict.{Dict}
use durallm.DurableStore
use durallm.DurableStore.Tables
use durallm.DurableStore.Tables.{
  Result, ok, err, lease_unavailable, Database, Lease, LeaseRow, OperationRow, lease_row,
  store_lease, acquire_lease, delete_lease, is_live, holds, operation_for_call, lease_of,
  StoredOperation,
}
use durallm.DurableStore.Calls as Store

-- The row is gone, or its token has not fallen.
abbrev pub Climbs : Option LeaseRow → Option LeaseRow → Type 0
Climbs none o' = Unit
Climbs (some row) none = Unit
Climbs (some row) (some row') = row.fencing_token ≤ row'.fencing_token

abbrev pub IsHeld : Option LeaseRow → Type 0
IsHeld none = ⊥
IsHeld (some row) = Unit

Climbs-refl : (o : Option LeaseRow) → Climbs o o
Climbs-refl none = tt
Climbs-refl (some row) = omega arith

Climbs-none : (o : Option LeaseRow) → Climbs o none
Climbs-none none = tt
Climbs-none (some row) = tt

Climbs-trans : (o o' o'' : Option LeaseRow) → IsHeld o' → Climbs o o' → Climbs o' o'' → Climbs o o''
Climbs-trans none o' o'' held h k = tt
Climbs-trans (some a) none o'' held h k = absurd held
Climbs-trans (some a) (some b) none held h k = tt
Climbs-trans (some a) (some b) (some c) held h k = omega arith

lease_row-Climbs :
    (o : Option LeaseRow) (owner : String) (expires now : ℕ) (row : LeaseRow)
    → lease_row o owner expires now ≡ some row
    → Climbs o (some row)
unfolding lease_row
lease_row-Climbs none owner expires now row h = tt
lease_row-Climbs (some old) owner expires now row h = ground arith

remove-Climbs :
    (resource key : String) (d : Dict String LeaseRow)
    → Climbs (Dict.lookup resource d) (Dict.lookup resource (Dict.remove key d))
remove-Climbs resource key d = rw Dict.lookup-remove (
    if_both (Climbs (Dict.lookup resource d)) (key == resource)
      (Climbs-none (Dict.lookup resource d)) (Climbs-refl (Dict.lookup resource d)))

lookup-drop_leases :
    {Args Receipt : Type 0} (resource : String) (rows : Dict String (OperationRow Args Receipt))
    (d : Dict String LeaseRow)
    → (Dict.lookup resource (DurableStore.drop_leases rows d) ≡ none)
      ⊎ (Dict.lookup resource (DurableStore.drop_leases rows d) ≡ Dict.lookup resource d)
unfolding DurableStore.drop_leases
lookup-drop_leases resource [] d = inr refl
lookup-drop_leases resource ((key, row) ∷ rows) d =
    let d' = if Tables.is_indeterminate row.status then Dict.remove (lease_of key) d else d in
    elim (lookup-drop_leases resource rows d') [
      | inl gone ↦ inl gone
      | inr same ↦
          if_both
            (λ (e : Dict String LeaseRow).
              Dict.lookup resource (DurableStore.drop_leases rows d') ≡ Dict.lookup resource e
              → (Dict.lookup resource (DurableStore.drop_leases rows d') ≡ none)
                ⊎ (Dict.lookup resource (DurableStore.drop_leases rows d')
                    ≡ Dict.lookup resource d))
            (Tables.is_indeterminate row.status) (λ e. removed_or (lease_of key) resource d e)
            (λ e. inr e) same
    ]
  where
    removed_or :
        {V : Type 0} {o : Option V} (k j : String) (d : Dict String V)
        → o ≡ Dict.lookup j (Dict.remove k d)
        → (o ≡ none) ⊎ (o ≡ Dict.lookup j d)
    removed_or k j d e = elim (Bool-cases (k == j)) [
      | inl same ↦ inl (e ∙ rw Dict.lookup-remove (rw same refl))
      | inr other ↦ inr (e ∙ rw Dict.lookup-remove (rw other refl))
    ]

module _ {Args Receipt : Type 0} (resource : String) where
  -- The lease on the resource before and after.
  abbrev pub LeaseClimbs : Database Args Receipt → Database Args Receipt → Type 0
  LeaseClimbs s s' = Climbs (Dict.lookup resource s.leases) (Dict.lookup resource s'.leases)

  same_lease : (s : Database Args Receipt) → LeaseClimbs s s
  same_lease s = Climbs-refl (Dict.lookup resource s.leases)

  acquire_lease-Climbs :
      (key owner : String) (ttl now : ℕ) (s : Database Args Receipt)
      → LeaseClimbs s (acquire_lease key owner ttl now s).1
  unfolding acquire_lease store_lease
  acquire_lease-Climbs key owner ttl now s =
      elim (Option-cases (lease_row (Dict.lookup key s.leases) owner (now + max 1 ttl) now)) [
        | inl refused ↦ rw (refused, acquire_lease) (same_lease s)
        | inr (row, granted) ↦ elim (Bool-cases (key == resource)) [
          | inr other ↦
              rw (granted, acquire_lease) (rw Dict.lookup-insert (rw other (same_lease s)))
          | inl same ↦
              rw (granted, acquire_lease)
                (rw Dict.lookup-insert (
                  rw same (
                    subst (λ k. Climbs (Dict.lookup k s.leases) (some row))
                      ((eq_iff key resource).0 same)
                      (lease_row-Climbs (Dict.lookup key s.leases) owner (now + max 1 ttl) now row
                        granted))))
        ]
      ]

  delete_lease-Climbs :
      (key owner : String) (token : ℕ) (s t : Database Args Receipt)
      → t.leases ≡ s.leases
      → LeaseClimbs s (delete_lease key owner token t)
  unfolding delete_lease
  delete_lease-Climbs key owner token s t e =
      if_both (LeaseClimbs s) (holds (Dict.lookup key t.leases) owner token)
        (rw e (remove-Climbs resource key s.leases)) (rw e (same_lease s))

  found_lease :
      (o : Option (StoredOperation Args Receipt))
      (f : StoredOperation Args Receipt → Result (Database Args Receipt))
      (s : Database Args Receipt)
      → ((op : StoredOperation Args Receipt) → LeaseClimbs s (Store.settled (f op) s))
      → LeaseClimbs s
          (Store.settled (elim o [ none ↦ err Tables.durable_store_error | some op ↦ f op ]) s)
  found_lease none f s h = same_lease s
  found_lease (some op) f s h = h op

  submit-Climbs :
      (call owner : String) (ttl now : ℕ) (s : Database Args Receipt)
      → LeaseClimbs s
          (Store.settled_lease (DurableStore.mark_operation_submitted call owner ttl now s) s)
  unfolding DurableStore.mark_operation_submitted DurableStore.submit_with
  submit-Climbs call owner ttl now s = elim (Option-cases (operation_for_call call s)) [
    | inl absent ↦ rw (absent, DurableStore.mark_operation_submitted) (same_lease s)
    | inr (op, found) ↦ elim (Bool-cases (Tables.submittable op.status)) [
      | inr over ↦ rw (found, DurableStore.mark_operation_submitted) (rw over (same_lease s))
      | inl fit ↦
          rw (found, DurableStore.mark_operation_submitted)
            (rw fit (
              submitted_lease (acquire_lease (lease_of op.operation_key) owner ttl now s) op
                (acquire_lease-Climbs (lease_of op.operation_key) owner ttl now s)))
    ]
  ]
    where
      submitted_lease :
          (p : Option Lease × Database Args Receipt) (op : StoredOperation Args Receipt)
          → LeaseClimbs s p.1
          → LeaseClimbs s (Store.settled_lease (DurableStore.submit_with p op now) s)
      submitted_lease (none, t) op h = same_lease s
      submitted_lease (some lease, t) op h = h

  commit-Climbs :
      (call owner : String) (token : ℕ) (receipt : Receipt) (now stamp : ℕ)
      (s : Database Args Receipt)
      → LeaseClimbs s (
          Store.settled
            (DurableStore.mark_operation_committed call owner token receipt now stamp s)
            s)
  unfolding DurableStore.mark_operation_committed
  commit-Climbs call owner token receipt now stamp s =
      found_lease (operation_for_call call s) _ s λ op.
        let P = λ (r : Result (Database Args Receipt)). LeaseClimbs s (Store.settled r s) in
        if_both P (not (is_live (Dict.lookup (lease_of op.operation_key) s.leases) owner token now))
          (same_lease s)
          (if_both P (not (Tables.is_submitted op.status)) (same_lease s)
            (delete_lease-Climbs (lease_of op.operation_key) owner token s _ refl))

module _ {Args Receipt : Type 0} (sha256 : String → String) (resource : String) where
  step-Climbs :
      (op : Store.StoreOp Args Receipt) (s : Database Args Receipt)
      → LeaseClimbs resource s (Store.step sha256 op s)
  unfolding Store.step DurableStore.prepare_operation DurableStore.mark_operation_validated
      DurableStore.mark_operation_indeterminate DurableStore.mark_operation_failed
      DurableStore.recover_inflight_operations Tables.release_lease
  step-Climbs (Store.prepare call id tool hash args now) s =
      if_both (λ (r : Result (Database Args Receipt)). LeaseClimbs resource s (Store.settled r s))
        (Tables.bound_elsewhere (Dict.lookup call s.calls)
          (Tables.operation_key sha256 id tool hash))
        (same_lease resource s) (same_lease resource s)
  step-Climbs (Store.validate call now) s =
      found_lease resource (operation_for_call call s) _ s λ op.
        if_both (LeaseClimbs resource s) (Tables.is_proposed op.status) (same_lease resource s)
          (same_lease resource s)
  step-Climbs (Store.submit call owner ttl now) s = submit-Climbs resource call owner ttl now s
  step-Climbs (Store.commit call owner token receipt now stamp) s =
      commit-Climbs resource call owner token receipt now stamp s
  step-Climbs (Store.lose call reason now) s =
      found_lease resource (operation_for_call call s) _ s λ op.
        if_both (LeaseClimbs resource s) (Tables.is_committed op.status) (same_lease resource s)
          (remove-Climbs resource (lease_of op.operation_key) s.leases)
  step-Climbs (Store.fail call reason now) s =
      found_lease resource (operation_for_call call s) _ s λ op.
        if_both (LeaseClimbs resource s)
          (Tables.is_committed op.status || Tables.is_submitted op.status) (same_lease resource s)
          (same_lease resource s)
  step-Climbs (Store.recover reason now) s =
      elim (lookup-drop_leases resource (DurableStore.recover_rows reason now s.operations)
        s.leases) [
          | inl gone ↦ rw gone (Climbs-none (Dict.lookup resource s.leases))
          | inr same ↦ rw same (same_lease resource s)
        ]
  step-Climbs (Store.acquire key owner ttl now) s =
      acquire_lease-Climbs resource key owner ttl now s
  step-Climbs (Store.release key owner token) s =
      delete_lease-Climbs resource key owner token s s refl

  -- The lease is never deleted in the run.
  abbrev pub StaysHeld : Database Args Receipt → List (Store.StoreOp Args Receipt) → Type 0
  StaysHeld s [] = IsHeld (Dict.lookup resource s.leases)
  StaysHeld s (op ∷ ops) =
      IsHeld (Dict.lookup resource s.leases) × StaysHeld (Store.step sha256 op s) ops

  IsHeld-first :
      (s : Database Args Receipt) (ops : List (Store.StoreOp Args Receipt))
      → StaysHeld s ops
      → IsHeld (Dict.lookup resource s.leases)
  IsHeld-first s [] h = h
  IsHeld-first s (op ∷ ops) h = h.0

  pub run-Climbs :
      (s : Database Args Receipt) (ops : List (Store.StoreOp Args Receipt))
      → StaysHeld s ops
      → LeaseClimbs resource s (Store.run sha256 s ops)
  unfolding Store.run
  run-Climbs s [] h = same_lease resource s
  run-Climbs s (op ∷ ops) h =
      Climbs-trans (Dict.lookup resource s.leases)
        (Dict.lookup resource (Store.step sha256 op s).leases)
        (Dict.lookup resource (Store.run sha256 (Store.step sha256 op s) ops).leases)
        (IsHeld-first (Store.step sha256 op s) ops h.1) (step-Climbs op s)
        (run-Climbs (Store.step sha256 op s) ops h.1)
