-- ===== src/Cluster/Leasing.antt =====
-- Fencing tokens of durallm/storage/cluster.py over sequences of calls.
use durallm.Common.{
  ℕ, ◌+◌, ◌≤◌, ◌<◌, ◌≡◌, inl, inr, Option, some, String, List, [], ◌∷◌, string_eq, eq_iff, arith,
  if_both, Bool-cases,
}
use durallm.Common.Dict
use durallm.Cluster.Store
use durallm.Cluster.Store.{
  ClusterStore, ClusterLease, count_or_zero, is_held, acquire_lease, release_lease,
}

-- A call of a replica, with its time.
pub data ClusterCall (Payload : Type 0) : Type 0 where
  takes : String → String → ℕ → ℕ → ClusterCall Payload
  releases : String → String → ℕ → ClusterCall Payload
  prepares : String → String → String → String → Payload → ℕ → ClusterCall Payload
  commits : String → Payload → ℕ → ClusterCall Payload
  saves : String → String → Payload → ℕ → ℕ → ClusterCall Payload

module _ {Payload : Type 0} where
  unfoldable pub step : ClusterCall Payload → ClusterStore Payload → ClusterStore Payload
  step (takes resource owner ttl now) s = (acquire_lease resource owner ttl now s).1
  step (releases resource owner token) s = (release_lease resource owner token s).1
  step (prepares call operation tool hash args now) s =
      Store.prepare_call call operation tool hash args now s
  step (commits call receipt now) s = (Store.commit_receipt call receipt now s).1
  step (saves id version payload expected now) s =
      (Store.save_session id version payload expected now s).1

  unfoldable pub run : List (ClusterCall Payload) → ClusterStore Payload → ClusterStore Payload
  unfolding step
  run [] s = s
  run (c ∷ cs) s = run cs (step c s)

  -- The last fencing token of a resource
  abbrev counter : String → ClusterStore Payload → ℕ
  counter resource s = count_or_zero (Dict.lookup resource s.fencing_counters)

  acquire_lease-counter :
      (r resource owner : String) (ttl now : ℕ) (s : ClusterStore Payload)
      → counter r s ≤ counter r (acquire_lease resource owner ttl now s).1
  unfolding acquire_lease
  acquire_lease-counter r resource owner ttl now s =
      if_both (λ (x : Option ClusterLease × ClusterStore Payload). counter r s ≤ counter r x.1)
        (is_held (Dict.lookup resource s.leases) owner now) (omega arith)
        (rw Dict.lookup-insert (ground (arith, eq_iff resource r)))

  step-counter :
      (r : String) (c : ClusterCall Payload) (s : ClusterStore Payload)
      → counter r s ≤ counter r (step c s)
  unfolding step Store.prepare_call Store.commit_receipt Store.save_session release_lease
  step-counter r (takes resource owner ttl now) s = acquire_lease-counter r resource owner ttl now s
  step-counter r (releases resource owner token) s = ground arith
  step-counter r (prepares call operation tool hash args now) s = ground arith
  step-counter r (commits call receipt now) s = ground arith
  step-counter r (saves id version payload expected now) s = ground arith

  run-counter :
      (r : String) (cs : List (ClusterCall Payload)) (s : ClusterStore Payload)
      → counter r s ≤ counter r (run cs s)
  unfolding run
  run-counter r [] s = omega arith
  run-counter r (c ∷ cs) s = omega (arith, step-counter r c s, run-counter r cs (step c s))

  -- A lease that is granted has the token after the last one, which it becomes.
  acquire_lease-token :
      (resource owner : String) (ttl now : ℕ) (s : ClusterStore Payload) (lease : ClusterLease)
      → (acquire_lease resource owner ttl now s).0 ≡ some lease
      → (lease.fencing_token ≡ counter resource s + 1)
        × (counter resource (acquire_lease resource owner ttl now s).1 ≡ lease.fencing_token)
  unfolding acquire_lease
  acquire_lease-token resource owner ttl now s lease h =
      elim (Bool-cases (is_held (Dict.lookup resource s.leases) owner now)) [
        | inl held ↦ ground arith
        | inr free ↦
            ground
              (arith, Dict.lookup-insert_self resource (counter resource s + 1) s.fencing_counters)
      ]

  -- Of two leases on a resource the one that was granted later has the greater fencing token,
  -- whatever leases, releases, operations, receipts and saved sessions of whatever owners come
  -- between.
  pub acquire_lease-fences_later :
      (resource owner other : String) (ttl now ttl' later : ℕ) (s : ClusterStore Payload)
      (cs : List (ClusterCall Payload)) (lease lease' : ClusterLease)
      → (acquire_lease resource owner ttl now s).0 ≡ some lease
      → (acquire_lease resource other ttl' later
          (run cs (acquire_lease resource owner ttl now s).1)).0
        ≡ some lease'
      → lease.fencing_token < lease'.fencing_token
  acquire_lease-fences_later resource owner other ttl now ttl' later s cs lease lease' h h' =
      let s1 = (acquire_lease resource owner ttl now s).1 in
      omega (
        arith,
        acquire_lease-token resource owner ttl now s lease h,
        acquire_lease-token resource other ttl' later (run cs s1) lease' h',
        run-counter resource cs s1,
      )
