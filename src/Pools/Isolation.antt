-- ===== src/Pools/Isolation.antt =====
-- Sequences of calls on durallm/pools.py that name one pool, and the view of another pool.
use durallm.Common.{
  ℕ, ◌+◌, ◌≤◌, ◌≡◌, refl, sym, ap, ◌∙◌, inl, inr, Bool, false, String, List, [], ◌∷◌, keep,
  if◌then◌else◌, ◌==◌, string_eq, pair_eq, arith, Bool-cases, if_both, All, any,
}
use durallm.Common.Dict
use durallm.Common.Dict.{Dict}
use durallm.Pools.Manager
use durallm.Pools.Manager.{
  RouteDefinition, IsolatedPoolManager, Clock, lower, is_coding, routes_of, is_left_in, is_left,
  has_pair, is_of, uncool, earliest, earliest_of, select_route, concerns,
}
use durallm.Pools.View.{restrict, select_route-restrict}
use durallm.Pools.Others.{
  PoolCall, exhausts_provider, pool_of, locks_out, step, run, AreApart, keep-insert_of,
  step-restrict_other,
}

-- Each call names a pool that is apart, and is made no later than that time.
abbrev pub AreOthers : String → ℕ → List (Clock × PoolCall) → Type 0
AreOthers p epoch = All (λ c. AreApart p (pool_of c.1) × (c.0.epoch ≤ epoch))

-- The manager with other account-wide lockouts.
abbrev pub with_lockouts : Dict String ℕ → IsolatedPoolManager → IsolatedPoolManager
with_lockouts lockouts s = record s { account_lockouts = lockouts }

keep-exhaust_routes :
    (p q provider : String) (until : ℕ) (rs : List RouteDefinition) (d : Dict (String × String) ℕ)
    → (q == p) ≡ false
    → keep (is_of p) (Manager.exhaust_routes q provider until rs d) ≡ keep (is_of p) d
unfolding Manager.exhaust_routes
keep-exhaust_routes p q provider until [] d h = refl
keep-exhaust_routes p q provider until (r ∷ rs) d h =
    keep-exhaust_routes p q provider until rs
      (if lower r.provider == provider then Dict.insert (q, lower r.id) until d else d) h
    ∙ if_both (λ d'. keep (is_of p) d' ≡ keep (is_of p) d) (lower r.provider == provider)
        (keep-insert_of p q (lower r.id) until d h) refl

mark_provider-unlocked :
    (p q provider : String) (n : ℕ) (now : Clock) (epoch : ℕ) (s : IsolatedPoolManager)
    → (lower q == lower p) ≡ false
    → restrict p epoch (with_lockouts [] (Manager.mark_provider_quota_exhausted q provider n now s))
      ≡ restrict p epoch (with_lockouts [] s)
unfolding restrict Manager.mark_provider_quota_exhausted
mark_provider-unlocked p q provider n now epoch s h = cc (
    keep-exhaust_routes (lower p) (lower q) (lower provider) (now.epoch + n) (routes_of q s)
      s.exhausted_quotas h)

-- But for the lockouts, a call leaves the view alone.
step-unlocked :
    (p : String) (now : Clock) (epoch : ℕ) (c : PoolCall) (s : IsolatedPoolManager)
    → AreApart p (pool_of c)
    → now.epoch ≤ epoch
    → restrict p epoch (with_lockouts [] (step now c s)) ≡ restrict p epoch (with_lockouts [] s)
step-unlocked p now epoch (exhausts_provider q provider n) s apart past =
    unfold step in mark_provider-unlocked p q provider n now epoch s apart.0
step-unlocked p now epoch c s apart past =
    unfold restrict in ap (with_lockouts []) (step-restrict_other p now epoch c s apart past refl)

run-unlocked :
    (p : String) (epoch : ℕ) (cs : List (Clock × PoolCall)) (s : IsolatedPoolManager)
    → AreOthers p epoch cs
    → restrict p epoch (with_lockouts [] (run cs s)) ≡ restrict p epoch (with_lockouts [] s)
unfolding run
run-unlocked p epoch [] s h = refl
run-unlocked p epoch ((now, c) ∷ cs) s h =
    run-unlocked p epoch cs (step now c s) h.1 ∙ step-unlocked p now epoch c s h.0.0 h.0.1

abbrev pub lock_out : List (Clock × PoolCall) → Bool
lock_out cs = any (λ c. locks_out c.1) cs

run-restrict_other :
    (p : String) (epoch : ℕ) (cs : List (Clock × PoolCall)) (s : IsolatedPoolManager)
    → AreOthers p epoch cs
    → lock_out cs ≡ false
    → restrict p epoch (run cs s) ≡ restrict p epoch s
unfolding run
run-restrict_other p epoch [] s h free = refl
run-restrict_other p epoch ((now, c) ∷ cs) s h free =
    run-restrict_other p epoch cs (step now c s) h.1 (ground arith)
    ∙ step-restrict_other p now epoch c s h.0.0 h.0.1 (ground arith)

-- The account-wide lockouts that the calls leave, if there are lockouts among them.
abbrev pub lockouts_after : List (Clock × PoolCall) → IsolatedPoolManager → Dict String ℕ
lockouts_after cs s = if lock_out cs then (run cs s).account_lockouts else s.account_lockouts

run-restrict :
    (p : String) (epoch : ℕ) (cs : List (Clock × PoolCall)) (s : IsolatedPoolManager)
    → AreOthers p epoch cs
    → restrict p epoch (run cs s) ≡ restrict p epoch (with_lockouts (lockouts_after cs s) s)
run-restrict p epoch cs s h = elim (Bool-cases (lock_out cs)) [
  | inr free ↦ rw free (run-restrict_other p epoch cs s h free)
  | inl locks ↦ rw locks (
      unfold restrict in
      ap (with_lockouts (keep (is_left epoch) (run cs s).account_lockouts))
        (run-unlocked p epoch cs s h))
]

-- In any state, after any calls that name a pool of another name with another list of routes and are
-- made no later than the selection, a pool selects the same route as without them, and all that it
-- sees of the state afterwards is the same, if none of them locks a provider out for the account. If
-- some do, the same holds beside a state that has the account-wide lockouts of after the calls and
-- is otherwise that of before: those lockouts are all that reaches the pool.
pub select_route-run :
    (p : String) (now : Clock) (cs : List (Clock × PoolCall)) (s : IsolatedPoolManager)
    → AreOthers p now.epoch cs
    → let s' = with_lockouts (lockouts_after cs s) s in
      ((select_route p now (run cs s)).0 ≡ (select_route p now s').0)
      × (restrict p now.epoch (select_route p now (run cs s)).1
          ≡ restrict p now.epoch (select_route p now s').1)
select_route-run p now cs s h =
    let s' = with_lockouts (lockouts_after cs s) s in
    let same = ap (select_route p now) (run-restrict p now.epoch cs s h) in
    let left = select_route-restrict p now (run cs s) in
    let right = select_route-restrict p now s' in
    let e = sym left ∙ same ∙ right in (ap (λ x. x.0) e, ap (λ x. x.1) e)
