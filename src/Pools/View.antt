-- ===== src/Pools/View.antt =====
-- What a pool sees of the manager in durallm/pools.py: its own routes and the entries of the maps that
-- are filed under its name.
use mathlib.Core.Path.{fun_ext}
use durallm.Common.{
  ℕ, ◌≡◌, refl, ap, ◌∙◌, Bool, Option, none, some, String, List, [], ◌∷◌, keep, if◌then◌else◌, ◌==◌,
  string_eq, pair_eq, eq_iff, arith,
}
use durallm.Common.Dict
use durallm.Common.Dict.{Dict}
use durallm.Pools.Manager.{
  RouteDefinition, IsolatedPoolManager, Clock, lower, is_coding, routes_of, auto_expire_cooldowns,
  is_left_in, is_left, has_pair, is_candidate, get_candidate_routes, retry_without, relieve,
  round_robin, is_of, uncool, earliest, sticky, pick, select_route,
}

abbrev pub is_under : {V : Type 0} → String → String × V → Bool
is_under p e = e.0 == p

-- The manager without what is filed for other pools, and without the lockouts that are over.
unfoldable pub restrict : String → ℕ → IsolatedPoolManager → IsolatedPoolManager
restrict pool epoch s = record {
  allowed_providers = s.allowed_providers;
  keys = s.keys;
  coding_routes = if is_coding pool then s.coding_routes else [];
  agent_routes = if is_coding pool then [] else s.agent_routes;
  coding_index = if is_coding pool then s.coding_index else 0;
  agent_index = if is_coding pool then 0 else s.agent_index;
  cooldowns = keep (is_of (lower pool)) s.cooldowns;
  deprecated = keep (is_under (lower pool)) s.deprecated;
  exhausted_quotas = keep (is_of (lower pool)) s.exhausted_quotas;
  account_lockouts = keep (is_left epoch) s.account_lockouts;
  last_success = keep (is_under (lower pool)) s.last_success;
  last_success_at = keep (is_under (lower pool)) s.last_success_at;
}

module _ {ℓ} {A : Type ℓ} where
  pub keep-keep : (p q : A → Bool) (xs : List A) → keep p (keep q xs) ≡ keep q (keep p xs)
  keep-keep p q [] = refl
  keep-keep p q (x ∷ xs) = ground (arith, keep-keep p q xs)

  pub keep-keep_self : (p : A → Bool) (xs : List A) → keep p (keep p xs) ≡ keep p xs
  keep-keep_self p [] = refl
  keep-keep_self p (x ∷ xs) = ground (arith, keep-keep_self p xs)

pub lookup-keep_of :
    (p r : String) (d : Dict (String × String) ℕ)
    → Dict.lookup (p, r) (keep (is_of p) d) ≡ Dict.lookup (p, r) d
unfolding Dict.lookup
lookup-keep_of p r [] = refl
lookup-keep_of p r (((a, b), v) ∷ d) = ground (arith, eq_iff a p, lookup-keep_of p r d)

pub lookup-keep_under :
    {V : Type 0} (p : String) (d : Dict String V)
    → Dict.lookup p (keep (is_under p) d) ≡ Dict.lookup p d
unfolding Dict.lookup
lookup-keep_under p [] = refl
lookup-keep_under p ((a, v) ∷ d) = ground (arith, lookup-keep_under p d)

pub has_pair-keep_under :
    (p m : String) (ks : List (String × String))
    → has_pair (p, m) (keep (is_under p) ks) ≡ has_pair (p, m) ks
has_pair-keep_under p m [] = refl
has_pair-keep_under p m ((a, b) ∷ ks) =
    ground (arith, eq_iff a p, eq_iff p a, has_pair-keep_under p m ks)

pub remove-keep_of :
    (k : String × String) (p : String) (d : Dict (String × String) ℕ)
    → Dict.remove k (keep (is_of p) d) ≡ keep (is_of p) (Dict.remove k d)
unfolding Dict.remove
remove-keep_of k p [] = refl
remove-keep_of k p ((j, v) ∷ d) = ground (arith, remove-keep_of k p d)

module _ (pool : String) (now : Clock) where
  routes_of-restrict :
      (s : IsolatedPoolManager) → routes_of pool (restrict pool now.epoch s) ≡ routes_of pool s
  unfolding restrict
  routes_of-restrict s = ground arith

  expire-restrict :
      (s : IsolatedPoolManager)
      → auto_expire_cooldowns (some pool) now (restrict pool now.epoch s)
        ≡ restrict pool now.epoch (auto_expire_cooldowns (some pool) now s)
  unfolding auto_expire_cooldowns restrict
  expire-restrict s = cc (
    keep-keep (is_left_in (some pool) now.monotonic) (is_of (lower pool)) s.cooldowns,
    keep-keep (is_left_in (some pool) now.epoch) (is_of (lower pool)) s.exhausted_quotas,
  )

  uncool-restrict :
      (k : String × String) (s : IsolatedPoolManager)
      → uncool k (restrict pool now.epoch s) ≡ restrict pool now.epoch (uncool k s)
  unfolding restrict
  uncool-restrict k s = rw remove-keep_of

  is_candidate-restrict :
      (s : IsolatedPoolManager) (r : RouteDefinition)
      → is_candidate pool now (restrict pool now.epoch (auto_expire_cooldowns (some pool) now s)) r
        ≡ is_candidate pool now (auto_expire_cooldowns (some pool) now s) r
  unfolding is_candidate restrict auto_expire_cooldowns
  is_candidate-restrict s r = simp (has_pair-keep_under, lookup-keep_of, keep-keep_self)

  expired_routes :
      (s : IsolatedPoolManager)
      → routes_of pool (auto_expire_cooldowns (some pool) now (restrict pool now.epoch s))
        ≡ routes_of pool (auto_expire_cooldowns (some pool) now s)
  unfolding restrict auto_expire_cooldowns
  expired_routes s = ground arith

  -- The second part of an answer, as the pool sees it
  abbrev seen : {A : Type 0} → A × IsolatedPoolManager → A × IsolatedPoolManager
  seen (a, s) = (a, restrict pool now.epoch s)

  candidates-restrict :
      (s : IsolatedPoolManager)
      → get_candidate_routes pool now (restrict pool now.epoch s)
        ≡ seen (get_candidate_routes pool now s)
  unfolding get_candidate_routes
  candidates-restrict s =
      cc (expire-restrict s, fun_ext (is_candidate-restrict s), expired_routes s)

  retry_without-restrict :
      (s : IsolatedPoolManager) (o : Option (String × String))
      → retry_without pool now (restrict pool now.epoch s) o ≡ seen (retry_without pool now s o)
  unfolding retry_without
  retry_without-restrict s none = refl
  retry_without-restrict s (some k) =
      ap (get_candidate_routes pool now) (uncool-restrict k s) ∙ candidates-restrict (uncool k s)

  relieve-restrict :
      (x : List RouteDefinition × IsolatedPoolManager)
      → relieve pool now (seen x) ≡ seen (relieve pool now x)
  unfolding relieve restrict
  relieve-restrict (r ∷ rs, s) = refl
  relieve-restrict ([], s) =
      ap (λ d. retry_without pool now (restrict pool now.epoch s) (earliest d))
        (keep-keep_self (is_of (lower pool)) s.cooldowns)
      ∙ retry_without-restrict s (earliest (keep (is_of (lower pool)) s.cooldowns))

  sticky-restrict :
      (s : IsolatedPoolManager) (rs : List RouteDefinition)
      → sticky pool now (restrict pool now.epoch s) rs ≡ sticky pool now s rs
  unfolding sticky restrict
  sticky-restrict s rs = cc (
    lookup-keep_under (lower pool) s.last_success,
    lookup-keep_under (lower pool) s.last_success_at,
  )

  round_robin-restrict :
      (s : IsolatedPoolManager) (r : RouteDefinition) (rs : List RouteDefinition)
      (o : Option RouteDefinition)
      → round_robin pool (restrict pool now.epoch s) r rs o ≡ seen (round_robin pool s r rs o)
  unfolding round_robin restrict
  round_robin-restrict s r rs (some route) = refl
  round_robin-restrict s r rs none = ground arith

  pick-restrict :
      (x : List RouteDefinition × IsolatedPoolManager)
      → pick pool now (seen x) ≡ seen (pick pool now x)
  unfolding pick
  pick-restrict ([], s) = refl
  pick-restrict (r ∷ rs, s) =
      rw (sticky-restrict s (r ∷ rs)) (round_robin-restrict s r rs (sticky pool now s (r ∷ rs)))

  -- A selection answers from what the pool sees, and changes nothing else of it.
  pub select_route-restrict :
      (s : IsolatedPoolManager)
      → select_route pool now (restrict pool now.epoch s) ≡ seen (select_route pool now s)
  unfolding select_route
  select_route-restrict s = rw (candidates-restrict s) (
      rw (relieve-restrict (get_candidate_routes pool now s))
        (pick-restrict (relieve pool now (get_candidate_routes pool now s))))
