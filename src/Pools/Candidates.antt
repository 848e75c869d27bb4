-- ===== src/Pools/Candidates.antt =====
-- Which routes durallm/pools.py hands out: the filters of `get_candidate_routes`, what `select_route`
-- answers, and what a cooldown or an exhausted quota takes away.
use mathlib.Core.Path.{fun_ext, subst}
use native.Mathlib.Nat.{mod-lt}
use durallm.Common.{
  ℕ, suc, ◌+◌, ◌%◌, ◌≤◌, ◌<◌, ◌≡◌, ◌⊎◌, refl, sym, ap, ◌∙◌, inl, inr, Bool, true, false, not, ◌&&◌,
  Option, none, some, String, List, [], ◌∷◌, keep, length, get_elem?, get_elem?-lt, ◌==◌, string_eq,
  pair_eq, pair_beq_iff, beq_refl, eq_iff, arith, Bool-cases, Among, Among-keep, get_elem?-Among,
}
use durallm.Common.Dict
use durallm.Common.Dict.{Dict}
use durallm.Pools.Manager
use durallm.Pools.Manager.{
  RouteDefinition, IsolatedPoolManager, Clock, lower, is_coding, routes_of, or_zero, is_left_in,
  has_pair, has_key, is_allowed, is_of, uncool, earliest, earliest_of, find_route,
  is_route_quota_exhausted, auto_expire_cooldowns, is_candidate, get_candidate_routes, select_route,
}
use durallm.Pools.Oldest.{IsOldest, earliest-IsOldest}

-- What lets a route be handed out.
pub record Passes (pool : String) (now : Clock) (s : IsolatedPoolManager) (r : RouteDefinition)
    : Type 0 where
  pub allowed : is_allowed s.allowed_providers r.provider ≡ true
  pub keyed : has_key s.keys r.env_key ≡ true
  pub supported : has_pair (lower pool, lower r.model) s.deprecated ≡ false
  pub in_quota : is_route_quota_exhausted pool r.id (some r.provider) now s ≡ false
  pub cool : or_zero (Dict.lookup (lower pool, lower r.id) s.cooldowns) ≤ now.monotonic

is_candidate-Passes :
    (pool : String) (now : Clock) (s : IsolatedPoolManager) (r : RouteDefinition)
    → is_candidate pool now s r ≡ true
    → Passes pool now s r
unfolding is_candidate
is_candidate-Passes pool now s r h = record {
  allowed = ground arith;
  keyed = ground arith;
  supported = ground arith;
  in_quota = ground arith;
  cool = ground arith;
}

-- The pool has no candidate, and the oldest of its cooldowns is dropped.
pub record Relieved (pool : String) (now : Clock) (s : IsolatedPoolManager) (r : RouteDefinition)
    : Type 0 where
  pub none_left : (get_candidate_routes pool now s).0 ≡ []
  pub dropped : (String × String) × ℕ
  pub oldest : IsOldest pool dropped (get_candidate_routes pool now s).1.cooldowns
  pub passes :
      Passes pool now
        (get_candidate_routes pool now (uncool dropped.0 (get_candidate_routes pool now s).1)).1
        r

abbrev pub Serves : String → Clock → IsolatedPoolManager → Option RouteDefinition → Type 0
Serves pool now s none = (get_candidate_routes pool now s).0 ≡ []
Serves pool now s (some r) =
    Among r (routes_of pool s)
    × (Passes pool now (get_candidate_routes pool now s).1 r ⊎ Relieved pool now s r)

abbrev Picks : List RouteDefinition → Option RouteDefinition → Type 0
Picks rs none = rs ≡ []
Picks rs (some r) = Among r rs

find_route-Among :
    (id : String) (rs : List RouteDefinition) (r : RouteDefinition)
    → find_route id rs ≡ some r
    → Among r rs
find_route-Among id [] r h = cc
find_route-Among id (x ∷ rs) r h =
    let at : Bool → Type 0 = λ b. elim b [ true ↦ some x | false ↦ find_route id rs ] ≡ some r in
    elim (Bool-cases (lower x.id == id)) [
      | inl e ↦ let found : some x ≡ some r = subst at e h in inl (cc)
      | inr e ↦ inr (find_route-Among id rs r (subst at e h))
    ]

last_route-Among :
    (now : ℕ) (at : Option ℕ) (rs : List RouteDefinition) (o : Option String) (r : RouteDefinition)
    → Manager.last_route now at rs o ≡ some r
    → Among r rs
unfolding Manager.last_route
last_route-Among now at rs none r h = cc
last_route-Among now at rs (some id) r h = find_route-Among id rs r (ground arith)

round_robin-Picks :
    (pool : String) (s : IsolatedPoolManager) (r : RouteDefinition) (rs : List RouteDefinition)
    (o : Option RouteDefinition)
    → ((r' : RouteDefinition) → o ≡ some r' → Among r' (r ∷ rs))
    → Picks (r ∷ rs) (Manager.round_robin pool s r rs o).0
unfolding Manager.round_robin
round_robin-Picks pool s r rs (some r') h = h r' refl
round_robin-Picks pool s r rs none h =
    let i = Manager.index_of pool s % suc (length rs) in
    let (r', found) : (r' : RouteDefinition) × (get_elem? (r ∷ rs) i ≡ some r') =
      get_elem?-lt (r ∷ rs) i (mod-lt (Manager.index_of pool s) (omega arith)) in
    subst (Picks (r ∷ rs)) (sym found) (get_elem?-Among (r ∷ rs) i r' found)

pick-Picks :
    (pool : String) (now : Clock) (x : List RouteDefinition × IsolatedPoolManager)
    → Picks x.0 (Manager.pick pool now x).0
unfolding Manager.pick Manager.sticky
pick-Picks pool now ([], s) = refl
pick-Picks pool now (r ∷ rs, s) =
    round_robin-Picks pool s r rs (Manager.sticky pool now s (r ∷ rs)) (
      last_route-Among now.monotonic (Dict.lookup (lower pool) s.last_success_at) (r ∷ rs)
        (Dict.lookup (lower pool) s.last_success))

candidate-Passes :
    (pool : String) (now : Clock) (s : IsolatedPoolManager) (r : RouteDefinition)
    → Among r (get_candidate_routes pool now s).0
    → Among r (routes_of pool s) × Passes pool now (get_candidate_routes pool now s).1 r
unfolding get_candidate_routes auto_expire_cooldowns
candidate-Passes pool now s r m =
    let s' = (get_candidate_routes pool now s).1 in
    let (m', ok) = Among-keep (is_candidate pool now s') r (routes_of pool s) m in
    (m', is_candidate-Passes pool now s' r ok)

module _ (pool : String) (now : Clock) (s : IsolatedPoolManager) where
  served :
      (o : Option RouteDefinition)
      → Picks (get_candidate_routes pool now s).0 o
      → Serves pool now s o
  served none h = h
  served (some r) h = let (m, ok) = candidate-Passes pool now s r h in (m, inl ok)

  served_by_relief :
      (k : String × String) (o : Option RouteDefinition)
      → (get_candidate_routes pool now s).0 ≡ []
      → earliest (keep (is_of (lower pool)) (get_candidate_routes pool now s).1.cooldowns) ≡ some k
      → Picks (get_candidate_routes pool now (uncool k (get_candidate_routes pool now s).1)).0 o
      → Serves pool now s o
  unfolding get_candidate_routes auto_expire_cooldowns
  served_by_relief k none left found h = left
  served_by_relief k (some r) left found h =
      let s' = (get_candidate_routes pool now s).1 in
      let (m, ok) = candidate-Passes pool now (uncool k s') r h in
      let (e, at_k, oldest) = earliest-IsOldest pool s'.cooldowns k found in
      let ok' : Passes pool now (get_candidate_routes pool now (uncool e.0 s')).1 r =
        subst (λ j. Passes pool now (get_candidate_routes pool now (uncool j s')).1 r) (sym at_k)
          ok in
      (m, inr (record { none_left = left; dropped = e; oldest = oldest; passes = ok' }))

  -- A route that is selected is one of the pool that is allowed, has its key, is neither deprecated
  -- nor out of quota, and is cool; only where no route of the pool is all that, the pool's oldest
  -- cooldown is dropped first. None is selected only where the pool has no candidate.
  pub select_route-Serves : Serves pool now s (select_route pool now s).0
  unfolding select_route Manager.relieve Manager.retry_without
  select_route-Serves = first (get_candidate_routes pool now s) refl
    where
      second :
          (s' : IsolatedPoolManager) (o : Option (String × String))
          → get_candidate_routes pool now s ≡ ([], s')
          → earliest (keep (is_of (lower pool)) s'.cooldowns) ≡ o
          → Serves pool now s (Manager.pick pool now (Manager.retry_without pool now s' o)).0
      second s' none e found = served none (ap (λ x. x.0) e)
      second s' (some k) e found =
          let y = get_candidate_routes pool now (uncool k s') in
          let same : s' ≡ (get_candidate_routes pool now s).1 = sym (ap (λ x. x.1) e) in
          served_by_relief k (Manager.pick pool now y).0 (ap (λ x. x.0) e)
            (subst
              (λ (t : IsolatedPoolManager).
                earliest (keep (is_of (lower pool)) t.cooldowns) ≡ some k)
              same found)
            (subst
              (λ t.
                Picks (get_candidate_routes pool now (uncool k t)).0 (Manager.pick pool now y).0)
              same (pick-Picks pool now y))

      first :
          (x : List RouteDefinition × IsolatedPoolManager)
          → get_candidate_routes pool now s ≡ x
          → Serves pool now s (Manager.pick pool now (Manager.relieve pool now x)).0
      first (r ∷ rs, s') e =
          let x : List RouteDefinition × IsolatedPoolManager = (r ∷ rs, s') in
          served (Manager.pick pool now x).0
            (subst (λ y. Picks y.0 (Manager.pick pool now x).0) (sym e) (pick-Picks pool now x))
      first ([], s') e = second s' (earliest (keep (is_of (lower pool)) s'.cooldowns)) e refl

module _ {V : Type 0} (p : (String × String) × V → Bool) where
  lookup-keep-insert_ne :
      (k j : String × String) (v : V) (d : Dict (String × String) V)
      → (k == j) ≡ false
      → Dict.lookup j (keep p (Dict.insert k v d)) ≡ Dict.lookup j (keep p d)
  unfolding Dict.lookup Dict.insert
  lookup-keep-insert_ne k j v [] h = ground arith
  lookup-keep-insert_ne k j v ((i, w) ∷ d) h =
      ground (
        arith,
        pair_beq_iff i k,
        pair_beq_iff i j,
        pair_beq_iff k j,
        lookup-keep-insert_ne k j v d h,
      )

  lookup-keep-insert_self :
      (k : String × String) (v : V) (d : Dict (String × String) V)
      → ((j : String × String) → p (j, v) ≡ true)
      → Dict.lookup k (keep p (Dict.insert k v d)) ≡ some v
  unfolding Dict.lookup Dict.insert
  lookup-keep-insert_self k v [] h = ground (arith, h k, beq_refl k)
  lookup-keep-insert_self k v ((i, w) ∷ d) h =
      ground (arith, h i, beq_refl k, pair_beq_iff i k, lookup-keep-insert_self k v d h)

keep-and :
    {A : Type 0} (p q : A → Bool) (xs : List A) → keep (λ x. p x && q x) xs ≡ keep p (keep q xs)
keep-and p q [] = refl
keep-and p q (x ∷ xs) = ground (arith, keep-and p q xs)

module _ (pool id : String) (seconds : ℕ) (t now : Clock) (s : IsolatedPoolManager) where
  cooled_candidate :
      now.monotonic < t.monotonic + seconds
      → (r : RouteDefinition)
      → is_candidate pool now
          (auto_expire_cooldowns (some pool) now (Manager.mark_cooldown pool id seconds t s))
          r
        ≡ (not (lower r.id == lower id)
            && is_candidate pool now (auto_expire_cooldowns (some pool) now s) r)
  unfolding is_candidate auto_expire_cooldowns Manager.mark_cooldown
  cooled_candidate lasts r =
      let k : String × String = (lower pool, lower id) in
      let j : String × String = (lower pool, lower r.id) in
      let p = is_left_in (some pool) now.monotonic in
      let until = t.monotonic + seconds in
      elim (Bool-cases (lower r.id == lower id)) [
        | inl same ↦
            let e : lower r.id ≡ lower id = (eq_iff (lower r.id) (lower id)).0 same in
            let found : Dict.lookup k (keep p (Dict.insert k until s.cooldowns)) ≡ some until =
              lookup-keep-insert_self p k until s.cooldowns (λ i. ground arith) in
            let hot : or_zero (Dict.lookup j (keep p (Dict.insert k until s.cooldowns))) ≡ until =
              subst
                (λ (x : String).
                  or_zero (Dict.lookup (lower pool, x) (keep p (Dict.insert k until s.cooldowns)))
                  ≡ until)
                (sym e) (ap or_zero found) in
            rw same (ground arith)
        | inr other ↦
            let ne : (k == j) ≡ false =
              ground (arith, eq_iff (lower r.id) (lower id), eq_iff (lower id) (lower r.id)) in
            rw other (cc (lookup-keep-insert_ne p k j until s.cooldowns ne))
      ]

  -- While a cooldown lasts, it takes from the candidates of its pool exactly the routes with its id;
  -- all others stay candidates, in their order.
  pub get_candidate_routes-mark_cooldown :
      now.monotonic < t.monotonic + seconds
      → (get_candidate_routes pool now (Manager.mark_cooldown pool id seconds t s)).0
        ≡ keep (λ r. not (lower r.id == lower id)) (get_candidate_routes pool now s).0
  unfolding get_candidate_routes auto_expire_cooldowns Manager.mark_cooldown
  get_candidate_routes-mark_cooldown lasts =
      ap (λ p. keep p (routes_of pool s)) (fun_ext (cooled_candidate lasts))
      ∙ keep-and (λ r. not (lower r.id == lower id))
          (is_candidate pool now (auto_expire_cooldowns (some pool) now s)) (routes_of pool s)
