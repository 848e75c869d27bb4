-- ===== src/Routing/Selection.antt =====
-- durallm/routing/router.py, `CapabilityRouter.select_candidate`: which endpoint of a pool is tried
-- next. What it reads of the other stores is a `View`: a score is a natural number in the order of
-- the source's float, and names of providers are in lower case.
use durallm.Common.{
  ℕ, suc, ◌%◌, ◌≡◌, refl, inl, inr, sym, Bool, true, false, not, ◌&&◌, ◌||◌, Option, none, some,
  String, List, [], ◌∷◌, ltb, leb, nat_beq, if◌then◌else◌, ◌==◌, string_eq, arith, any, keep,
  length, get_elem?, get_elem?-lt, get_elem?-Among, Option-cases, Among, keep-none, Among-keep,
  if_split,
}
use durallm.Breaker.State.{CircuitBreakerState, opened, forced_open}
use native.Mathlib.Nat.{mod-lt}
use mathlib.Core.Path.{subst}

pub record ModelProfile : Type 0 where
  pub context_window : ℕ
  pub max_output_tokens : ℕ

pub record Endpoint : Type 0 where
  pub id : String
  pub provider : String
  pub model : String
  pub resource_key : String
  pub lane_key : Option String
  pub priority : ℕ
  pub profile : ModelProfile

pub record View : Type 0 where
  pub is_dead : Endpoint → Bool
  pub is_quota_exhausted : Endpoint → Bool
  pub matches_hard_constraints : Endpoint → Bool
  pub compatible : Endpoint → Bool  -- of `preflight_context`
  pub lane_available : String → Bool
  pub breaker_state : String → CircuitBreakerState
  pub latency_score : Endpoint → ℕ
  pub cost_score : Endpoint → ℕ
  pub health_score : Endpoint → ℕ
  pub final_score : Endpoint → ℕ
  pub is_large_context : Bool
  pub round_robin_index : ℕ

-- `exclusion_reason`
pub data Exclusion : Type 0 where
  excluded dead quota_exhausted constraint_failed incompatible lane_unavailable : Exclusion
  breaker_open : Exclusion

abbrev pub has_id : String → List String → Bool
has_id id ids = any (λ i. id == i) ids

abbrev pub lane_is_free : View → Option String → Bool
lane_is_free v none = true
lane_is_free v (some lane) = v.lane_available lane

abbrev pub is_open_state : CircuitBreakerState → Bool
is_open_state opened = true
is_open_state forced_open = true
is_open_state _ = false

-- The filters, in their order; none for an endpoint that passes them all.
unfoldable pub evaluate : View → List String → Endpoint → Option Exclusion
evaluate v exclusions ep =
    if has_id ep.id exclusions
    then some excluded
    else if v.is_dead ep
    then some dead
    else if v.is_quota_exhausted ep
    then some quota_exhausted
    else if not (v.matches_hard_constraints ep)
    then some constraint_failed
    else if not (v.compatible ep)
    then some incompatible
    else if not (lane_is_free v ep.lane_key)
    then some lane_unavailable
    else if is_open_state (v.breaker_state ep.resource_key)
    then some breaker_open
    else none

abbrev pub is_none : Option Exclusion → Bool
is_none none = true
is_none (some e) = false

unfoldable pub eligible : View → List String → Endpoint → Bool
unfolding evaluate
eligible v exclusions ep = is_none (evaluate v exclusions ep)

-- The first element of a stable sort: no later one is put before it.
unfoldable pub first_by : (Endpoint → Endpoint → Bool) → Endpoint → List Endpoint → Endpoint
first_by before ep [] = ep
first_by before ep (ep' ∷ eps) = first_by before (if before ep' ep then ep' else ep) eps

pub data Strategy : Type 0 where
  priority round_robin latency_aware cost_aware reliability_aware balanced : Strategy

unfoldable pub tier : View → Endpoint → ℕ
tier v ep =
    if v.is_large_context
    then if leb 200000 ep.profile.context_window && not (ep.provider == "groq")
      then 0
      else if ep.provider == "groq"
      then 1
      else 2
    else 0

-- The order of the keys `(tier, priority, -final_score)`.
unfoldable pub has_priority : View → Endpoint → Endpoint → Bool
unfolding tier
has_priority v a b =
    ltb (tier v a) (tier v b)
    || nat_beq (tier v a) (tier v b)
      && (ltb a.priority b.priority
          || nat_beq a.priority b.priority && ltb (v.final_score b) (v.final_score a))

abbrev pub higher : (Endpoint → ℕ) → Endpoint → Endpoint → Bool
higher score a b = ltb (score b) (score a)

unfoldable pub choose : Strategy → View → Endpoint → List Endpoint → Option Endpoint
unfolding first_by has_priority
choose priority v ep eps = some (first_by (has_priority v) ep eps)
choose round_robin v ep eps = get_elem? (ep ∷ eps) (v.round_robin_index % suc (length eps))
choose latency_aware v ep eps = some (first_by (higher v.latency_score) ep eps)
choose cost_aware v ep eps = some (first_by (higher v.cost_score) ep eps)
choose reliability_aware v ep eps = some (first_by (higher v.health_score) ep eps)
choose balanced v ep eps = some (first_by (higher v.final_score) ep eps)

abbrev pub choose_among : Strategy → View → List Endpoint → Option Endpoint
choose_among strat v [] = none
choose_among strat v (ep ∷ eps) = choose strat v ep eps

-- `endpoints` are those of the pool.
unfoldable pub select_candidate : Strategy → List Endpoint → View → List String → Option Endpoint
unfolding eligible choose
select_candidate strat endpoints v exclusions =
    choose_among strat v (keep (eligible v exclusions) endpoints)

first_by-Among :
    (before : Endpoint → Endpoint → Bool) (ep : Endpoint) (eps : List Endpoint)
    → Among (first_by before ep eps) (ep ∷ eps)
unfolding first_by
first_by-Among before ep [] = inl refl
first_by-Among before ep (ep' ∷ eps) =
    if_split (λ e. Among (first_by before e eps) (ep ∷ ep' ∷ eps)) (before ep' ep)
      (λ sooner. inr (first_by-Among before ep' eps))
      (λ later. elim (first_by-Among before ep eps) [ inl same ↦ inl same | inr m ↦ inr (inr m) ])

pub record Passes (v : View) (exclusions : List String) (ep : Endpoint) : Type 0 where
  pub not_excluded : has_id ep.id exclusions ≡ false
  pub alive : v.is_dead ep ≡ false
  pub within_quota : v.is_quota_exhausted ep ≡ false
  pub within_constraints : v.matches_hard_constraints ep ≡ true
  pub fits : v.compatible ep ≡ true
  pub lane_free : lane_is_free v ep.lane_key ≡ true
  pub not_open : is_open_state (v.breaker_state ep.resource_key) ≡ false

-- A candidate among the endpoints that passes every filter, and none only where no endpoint does.
abbrev pub Selects : View → List String → List Endpoint → Option Endpoint → Type 0
Selects v exclusions endpoints none = any (eligible v exclusions) endpoints ≡ false
Selects v exclusions endpoints (some ep) = Among ep endpoints × Passes v exclusions ep

choose-Among :
    (strat : Strategy) (v : View) (ep : Endpoint) (eps : List Endpoint)
    → (e : Endpoint) × (choose strat v ep eps ≡ some e) × Among e (ep ∷ eps)
unfolding choose
choose-Among priority v ep eps = (_, refl, first_by-Among (has_priority v) ep eps)
choose-Among round_robin v ep eps =
    let i = v.round_robin_index % suc (length eps) in
    let (e, found) : (e : Endpoint) × (get_elem? (ep ∷ eps) i ≡ some e) =
      get_elem?-lt (ep ∷ eps) i (mod-lt v.round_robin_index (omega arith)) in
    (e, found, get_elem?-Among (ep ∷ eps) i e found)
choose-Among latency_aware v ep eps = (_, refl, first_by-Among (higher v.latency_score) ep eps)
choose-Among cost_aware v ep eps = (_, refl, first_by-Among (higher v.cost_score) ep eps)
choose-Among reliability_aware v ep eps = (_, refl, first_by-Among (higher v.health_score) ep eps)
choose-Among balanced v ep eps = (_, refl, first_by-Among (higher v.final_score) ep eps)

evaluate-Passes :
    (v : View) (exclusions : List String) (ep : Endpoint)
    → evaluate v exclusions ep ≡ none
    → Passes v exclusions ep
unfolding evaluate
evaluate-Passes v exclusions ep h = record {
  not_excluded = ground arith;
  alive = ground arith;
  within_quota = ground arith;
  within_constraints = ground arith;
  fits = ground arith;
  lane_free = ground arith;
  not_open = ground arith;
}

eligible-Passes :
    (v : View) (exclusions : List String) (ep : Endpoint)
    → eligible v exclusions ep ≡ true
    → Passes v exclusions ep
unfolding eligible
eligible-Passes v exclusions ep h =
    evaluate-Passes v exclusions ep (elim (Option-cases (evaluate v exclusions ep)) [
      | inl e ↦ e
      | inr (x, e) ↦ let no : false ≡ true = subst (λ o. is_none o ≡ true) e h in cc
    ])

-- Under every strategy, whatever the scores, the candidate is an endpoint of the pool that passes
-- every filter: not excluded, not dead, within its quota and the constraints, its lane available and
-- its breaker not open. None is answered only if no endpoint of the pool passes.
pub select_candidate-Selects :
    (strat : Strategy) (endpoints : List Endpoint) (v : View) (exclusions : List String)
    → Selects v exclusions endpoints (select_candidate strat endpoints v exclusions)
unfolding select_candidate
select_candidate-Selects strat endpoints v exclusions =
    chosen (keep (eligible v exclusions) endpoints) refl
  where
    chosen :
        (eps : List Endpoint)
        → keep (eligible v exclusions) endpoints ≡ eps
        → Selects v exclusions endpoints (choose_among strat v eps)
    chosen [] e = keep-none (eligible v exclusions) endpoints e
    chosen (ep ∷ eps) e =
        let (c, picked, m) = choose-Among strat v ep eps in
        let (m', ok) = Among-keep (eligible v exclusions) c endpoints (subst (Among c) (sym e) m) in
        subst (Selects v exclusions endpoints) (sym picked) (m', eligible-Passes v exclusions c ok)
