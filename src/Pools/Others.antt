-- ===== src/Pools/Others.antt =====
-- Calls on durallm/pools.py that name one pool, and the view of another pool.
use mathlib.Core.Path.{subst}
use durallm.Common.{
  ℕ, ◌+◌, ◌≤◌, ◌≡◌, refl, sym, ◌∙◌, inl, inr, Bool, true, false, not, ◌&&◌, Option, none, some,
  String, List, [], ◌∷◌, ◌++◌, ltb, keep, if◌then◌else◌, ◌==◌, string_eq, pair_eq, eq_iff, arith,
  Bool-cases, Option-cases, if_both, All,
}
use durallm.Common.Dict
use durallm.Common.Dict.{Dict}
use durallm.Pools.Manager
use durallm.Pools.Manager.{
  RouteDefinition, IsolatedPoolManager, Clock, lower, is_coding, routes_of, is_left_in, is_left,
  has_pair, is_of, uncool, earliest, earliest_of, select_route, concerns,
}
use durallm.Pools.View.{is_under, restrict}

-- A call that names a pool.
pub data PoolCall : Type 0 where
  cools : String → String → ℕ → PoolCall
  exhausts : String → String → ℕ → PoolCall
  clears : String → String → PoolCall
  expires : String → PoolCall
  deprecates : String → String → PoolCall
  lists : String → PoolCall
  succeeds : String → String → PoolCall
  selects : String → PoolCall
  discovers : String → RouteDefinition → PoolCall
  exhausts_provider : String → String → ℕ → PoolCall

abbrev pub pool_of : PoolCall → String
pool_of (cools q id n) = q
pool_of (exhausts q id n) = q
pool_of (clears q id) = q
pool_of (expires q) = q
pool_of (deprecates q model) = q
pool_of (lists q) = q
pool_of (succeeds q id) = q
pool_of (selects q) = q
pool_of (discovers q route) = q
pool_of (exhausts_provider q provider n) = q

-- The only call that reaches the account-wide lockouts
abbrev pub locks_out : PoolCall → Bool
locks_out (exhausts_provider q provider n) = true
locks_out _ = false

unfoldable pub step : Clock → PoolCall → IsolatedPoolManager → IsolatedPoolManager
step now (cools q id n) s = Manager.mark_cooldown q id n now s
step now (exhausts q id n) s = Manager.mark_quota_exhausted q id n now s
step now (clears q id) s = Manager.clear_cooldown id (some q) s
step now (expires q) s = Manager.auto_expire_cooldowns (some q) now s
step now (deprecates q model) s = Manager.mark_deprecated q model s
step now (lists q) s = (Manager.get_candidate_routes q now s).1
step now (succeeds q id) s = Manager.record_route_success q id now s
step now (selects q) s = (select_route q now s).1
step now (discovers q route) s = Manager.add_discovered_route q route s
step now (exhausts_provider q provider n) s =
    Manager.mark_provider_quota_exhausted q provider n now s

unfoldable pub run : List (Clock × PoolCall) → IsolatedPoolManager → IsolatedPoolManager
unfolding step
run [] s = s
run ((now, c) ∷ cs) s = run cs (step now c s)

-- The pools have different names and different lists of routes.
abbrev pub AreApart : String → String → Type 0
AreApart p q = ((lower q == lower p) ≡ false) × (is_coding q ≡ not (is_coding p))

module _ {ℓ} {A : Type ℓ} where
  keep-covered :
      (p q : A → Bool) (xs : List A)
      → ((x : A) → p x ≡ true → q x ≡ true)
      → keep p (keep q xs) ≡ keep p xs
  keep-covered p q [] h = refl
  keep-covered p q (x ∷ xs) h = ground (arith, h x, keep-covered p q xs h)

pub keep-insert_of :
    (p q r : String) (v : ℕ) (d : Dict (String × String) ℕ)
    → (q == p) ≡ false
    → keep (is_of p) (Dict.insert (q, r) v d) ≡ keep (is_of p) d
unfolding Dict.insert
keep-insert_of p q r v [] h = ground arith
keep-insert_of p q r v (((a, b), w) ∷ d) h = ground (arith, eq_iff a q, keep-insert_of p q r v d h)

keep-insert_under :
    {V : Type 0} (p q : String) (v : V) (d : Dict String V)
    → (q == p) ≡ false
    → keep (is_under p) (Dict.insert q v d) ≡ keep (is_under p) d
unfolding Dict.insert
keep-insert_under p q v [] h = ground arith
keep-insert_under p q v ((a, w) ∷ d) h = ground (arith, eq_iff a q, keep-insert_under p q v d h)

keep-remove_of :
    (p : String) (k : String × String) (d : Dict (String × String) ℕ)
    → (k.0 == p) ≡ false
    → keep (is_of p) (Dict.remove k d) ≡ keep (is_of p) d
unfolding Dict.remove
keep-remove_of p (q, r) [] h = refl
keep-remove_of p (q, r) (((a, b), w) ∷ d) h =
    ground (arith, eq_iff a q, keep-remove_of p (q, r) d h)

keep-snoc_under :
    (p : String) (k : String × String) (ks : List (String × String))
    → (k.0 == p) ≡ false
    → keep (is_under p) (ks ++ k ∷ []) ≡ keep (is_under p) ks
keep-snoc_under p k [] h = ground arith
keep-snoc_under p k (j ∷ ks) h = ground (arith, keep-snoc_under p k ks h)

earliest_of-All :
    (P : (String × String) × ℕ → Type 0) (e : (String × String) × ℕ) (d : Dict (String × String) ℕ)
    → P e
    → All P d
    → P (earliest_of e d)
unfolding earliest_of
earliest_of-All P e [] h hs = h
earliest_of-All P e (e' ∷ d) h hs =
    earliest_of-All P (if ltb e'.1 e.1 then e' else e) d (if_both P (ltb e'.1 e.1) hs.0 h) hs.1

keep-All :
    (p : (String × String) × ℕ → Bool) (d : Dict (String × String) ℕ)
    → All (λ x. p x ≡ true) (keep p d)
keep-All p [] = tt
keep-All p (x ∷ d) =
    let at : Bool → Type 0 =
      λ b. All (λ y. p y ≡ true) (elim b [ true ↦ x ∷ keep p d | false ↦ keep p d ]) in
    elim (Bool-cases (p x)) [
      | inl e ↦ subst at (sym e) (e, keep-All p d)
      | inr e ↦ subst at (sym e) (keep-All p d)
    ]

earliest-is_of :
    (q : String) (d : Dict (String × String) ℕ) {k : String × String}
    → All (λ x. is_of q x ≡ true) d
    → earliest d ≡ some k
    → (k.0 == q) ≡ true
earliest-is_of q [] h e = cc
earliest-is_of q (x ∷ d) {k} h e =
    let same : (earliest_of x d).0 ≡ k = cc in
    subst (λ j. (j.0 == q) ≡ true) same (earliest_of-All (λ y. is_of q y ≡ true) x d h.0 h.1)

-- No text equals two different texts.
eq_other : (a p q : String) → (q == p) ≡ false → (a == p) ≡ true → (a == q) ≡ false
eq_other a p q h e = ground (arith, eq_iff a p, eq_iff a q, eq_iff q p)

swap_other : (p q : String) → (q == p) ≡ false → (p == q) ≡ false
swap_other p q h = ground (arith, eq_iff q p, eq_iff p q)

module _ (p q : String) (now : Clock) (epoch : ℕ) (apart : AreApart p q)
    (past : now.epoch ≤ epoch) where
  covered :
      (t : ℕ) (x : (String × String) × ℕ)
      → is_of (lower p) x ≡ true
      → is_left_in (some q) t x ≡ true
  covered t x e = rw (eq_other x.0.0 (lower p) (lower q) apart.0 e)

  expire-restrict_other :
      (s : IsolatedPoolManager)
      → restrict p epoch (Manager.auto_expire_cooldowns (some q) now s) ≡ restrict p epoch s
  unfolding restrict Manager.auto_expire_cooldowns
  expire-restrict_other s = cc (
    keep-covered (is_of (lower p)) (is_left_in (some q) now.monotonic) s.cooldowns
        (covered now.monotonic),
    keep-covered (is_of (lower p)) (is_left_in (some q) now.epoch) s.exhausted_quotas
        (covered now.epoch),
    keep-covered (is_left epoch) (is_left now.epoch) s.account_lockouts (λ x e. ground arith),
  )

  uncool-restrict_other :
      (k : String × String) (s : IsolatedPoolManager)
      → (k.0 == lower q) ≡ true
      → restrict p epoch (uncool k s) ≡ restrict p epoch s
  unfolding restrict
  uncool-restrict_other k s e = cc (
      keep-remove_of (lower p) k s.cooldowns
        (eq_other k.0 (lower q) (lower p) (swap_other (lower p) (lower q) apart.0) e))

  retry_without-restrict_other :
      (s : IsolatedPoolManager) (o : Option (String × String))
      → ((k : String × String) → o ≡ some k → (k.0 == lower q) ≡ true)
      → restrict p epoch (Manager.retry_without q now s o).1 ≡ restrict p epoch s
  unfolding Manager.retry_without Manager.get_candidate_routes
  retry_without-restrict_other s none h = refl
  retry_without-restrict_other s (some k) h =
      expire-restrict_other (uncool k s) ∙ uncool-restrict_other k s (h k refl)

  relieve-restrict_other :
      (x : List RouteDefinition × IsolatedPoolManager)
      → restrict p epoch (Manager.relieve q now x).1 ≡ restrict p epoch x.1
  unfolding Manager.relieve
  relieve-restrict_other (r ∷ rs, s) = refl
  relieve-restrict_other ([], s) =
      retry_without-restrict_other s (earliest (keep (is_of (lower q)) s.cooldowns)) (λ k e.
        earliest-is_of (lower q) (keep (is_of (lower q)) s.cooldowns)
          (keep-All (is_of (lower q)) s.cooldowns) e)

  pick-restrict_other :
      (x : List RouteDefinition × IsolatedPoolManager)
      → restrict p epoch (Manager.pick q now x).1 ≡ restrict p epoch x.1
  unfolding Manager.pick Manager.round_robin restrict
  pick-restrict_other ([], s) = refl
  pick-restrict_other (r ∷ rs, s) = elim (Option-cases (Manager.sticky q now s (r ∷ rs))) [
    | inr (route, e) ↦ rw e refl
    | inl e ↦ rw e (let a = apart.1 in ground arith)
  ]

  clear_cooldown-restrict_other :
      (id : String) (s : IsolatedPoolManager)
      → restrict p epoch (Manager.clear_cooldown id (some q) s) ≡ restrict p epoch s
  unfolding restrict Manager.clear_cooldown
  clear_cooldown-restrict_other id s = cc (
      keep-covered (is_of (lower p))
        (λ (e : (String × String) × ℕ). not (e.0.1 == lower id && concerns (some q) e.0.0))
        s.cooldowns
        (λ x e. let other = eq_other x.0.0 (lower p) (lower q) apart.0 e in ground arith))

  mark_deprecated-restrict_other :
      (model : String) (s : IsolatedPoolManager)
      → restrict p epoch (Manager.mark_deprecated q model s) ≡ restrict p epoch s
  unfolding Manager.mark_deprecated
  mark_deprecated-restrict_other model s =
      let k : String × String = (lower q, lower model) in
      if_both (λ s'. restrict p epoch s' ≡ restrict p epoch s) (has_pair k s.deprecated) refl
        (unfold restrict in cc (keep-snoc_under (lower p) k s.deprecated apart.0))

  select_route-restrict_other :
      (s : IsolatedPoolManager) → restrict p epoch (select_route q now s).1 ≡ restrict p epoch s
  unfolding Manager.select_route Manager.get_candidate_routes
  select_route-restrict_other s =
      let x = Manager.get_candidate_routes q now s in
      pick-restrict_other (Manager.relieve q now x)
      ∙ relieve-restrict_other x
      ∙ expire-restrict_other s

pub step-restrict_other :
    (p : String) (now : Clock) (epoch : ℕ) (c : PoolCall) (s : IsolatedPoolManager)
    → AreApart p (pool_of c)
    → now.epoch ≤ epoch
    → locks_out c ≡ false
    → restrict p epoch (step now c s) ≡ restrict p epoch s
unfolding step restrict Manager.mark_cooldown Manager.mark_quota_exhausted
    Manager.record_route_success Manager.get_candidate_routes Manager.add_discovered_route
step-restrict_other p now epoch (cools q id n) s apart past free =
    cc (keep-insert_of (lower p) (lower q) (lower id) (now.monotonic + n) s.cooldowns apart.0)
step-restrict_other p now epoch (exhausts q id n) s apart past free =
    cc (keep-insert_of (lower p) (lower q) (lower id) (now.epoch + n) s.exhausted_quotas apart.0)
step-restrict_other p now epoch (clears q id) s apart past free =
    clear_cooldown-restrict_other p q now epoch apart past id s
step-restrict_other p now epoch (expires q) s apart past free =
    expire-restrict_other p q now epoch apart past s
step-restrict_other p now epoch (deprecates q model) s apart past free =
    mark_deprecated-restrict_other p q now epoch apart past model s
step-restrict_other p now epoch (lists q) s apart past free =
    expire-restrict_other p q now epoch apart past s
step-restrict_other p now epoch (succeeds q id) s apart past free = cc (
  keep-insert_under (lower p) (lower q) (lower id) s.last_success apart.0,
  keep-insert_under (lower p) (lower q) now.monotonic s.last_success_at apart.0,
)
step-restrict_other p now epoch (selects q) s apart past free =
    select_route-restrict_other p q now epoch apart past s
step-restrict_other p now epoch (discovers q route) s apart past free =
    let other = apart.1 in ground arith
step-restrict_other p now epoch (exhausts_provider q provider n) s apart past locks = cc
